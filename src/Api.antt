-- ===== src/Api.antt =====
-- api/v1alpha1: the kinds, the specs of the three policies, and the objects with their status.
pub mod Kinds
pub mod Specs
pub mod Objects
