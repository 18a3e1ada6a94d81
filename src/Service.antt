-- ===== src/Service.antt =====
-- How the services are modelled: a method runs in a monad of state and exceptions, and is proved
-- about by the rules of its steps.
mod Monad
mod Rules
mod Endings
unfoldable pub use Monad.*
pub use Rules.*
pub use Endings.*
