-- ===== src/Iam.antt =====
-- internal/iam: who may do what, along the hierarchy of organization, folders and project.
pub mod Role
pub mod Scope
pub mod Binding
pub mod Authorizer
mod Examples
