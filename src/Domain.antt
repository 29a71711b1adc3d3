-- ===== src/Domain.antt =====
-- internal/domain: the names of the data model, passed on from the children Instants, Enums and Records.
mod Instants
mod Enums
mod Records
pub use Instants.*
pub use Enums.*
pub use Records.*
