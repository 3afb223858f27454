-- ===== src/Pipeline/Profiles.antt =====
-- The generic part of pipeline/profiles.py: recognising a report by its headers, mapping its columns
-- by their exact names, reading the country out of the file, and hiding personal data.
--
-- The profiles themselves are an argument, as a list; a profile carries the transform that TRANSFORMS
-- has for its code.
mod Source
mod Country
mod Redaction
pub mod Concealed
pub mod Named
pub mod Effi
pub mod Dropi
pub mod Contents
pub mod Wallet
pub mod EffiGuide
pub mod DropiOrder
pub mod Catalogue
pub mod Signed
pub mod Outgoing
pub mod Guided
pub mod Leaves
pub mod Ordered
unfoldable pub use Source.*
unfoldable pub use Country.*
unfoldable pub use Redaction.*
