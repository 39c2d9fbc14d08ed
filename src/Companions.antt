-- ===== src/Companions.antt =====
-- demos/rosetta/201 to 300: programs that check the texts of their companion files.
pub mod Text
pub mod Packages
pub mod Workspaces
pub mod Modules
pub mod Layers
pub mod Layouts
pub mod Services
pub mod Builds
pub mod Pipelines
pub mod Linking
pub mod Platforms
pub mod Versions
pub mod Decimal
pub mod VersionLaws
pub mod Laws
pub mod Selection
