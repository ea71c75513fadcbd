-- ===== src/Kube.antt =====
-- Types of the Kubernetes API (k8s.io/api) whose contents the operator passes on unread. They are a
-- parameter of the model.
use jaeger_operator.Base.{String}

pub record Kube : Type 1 where
  pub Quantity : Type 0
  pub Affinity : Type 0
  pub Toleration : Type 0
  pub PodSecurityContext : Type 0
  pub SecurityContext : Type 0
  pub Probe : Type 0
  pub VolumeSource : Type 0
  pub MountSettings : Type 0
  pub EnvSource : Type 0
  pub ContainerRest : Type 0

-- corev1.Volume, corev1.VolumeMount and corev1.LocalObjectReference
pub record Volume (K : Kube) : Type 0 where
  pub name : String
  pub source : K.VolumeSource

pub record VolumeMount (K : Kube) : Type 0 where
  pub name : String
  pub mount_path : String
  pub settings : K.MountSettings

pub record LocalObjectReference : Type 0 where
  pub name : String

-- Texts in place of every such type, for tests.
abbrev pub text_kube : Kube
text_kube = record {
  Quantity = String;
  Affinity = String;
  Toleration = String;
  PodSecurityContext = String;
  SecurityContext = String;
  Probe = String;
  VolumeSource = String;
  MountSettings = String;
  EnvSource = String;
  ContainerRest = String;
}
