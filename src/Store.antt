-- ===== src/Store.antt =====
-- The database of services/discussion-service as a value: the entities, the tables, and the steps
-- of its service methods beside the generic ones of Service.
mod Enums
mod Rows
mod Schema
mod Monad
mod Rules
unfoldable pub use aca_social.Service.{
  pure, throw, gets, or_throw, fetch, ◌>>=◌, ◌>>◌, throw_if, modify, when, branch, transaction,
  lift,
}
pub use aca_social.Service.{
  Error, unauthorized, forbidden, bad_request, conflict, not_found, unavailable, too_many_requests,
  internal, Result, ok, err, Run, Ends, Established, Checks, OnOk, pure-Ends, throw-Ends,
  transaction-Ends, gets-Ends, or_throw-Ends, fetch-Ends, lift-Ends, bind-Ends, check-Ends,
  throw_if-Ends, lift_then-Ends, modify-Ends, when-Ends, check_then-Ends, bind_then-Ends,
  check_when-Ends, last_throw_if-Ends, last_or_throw-Ends, last_fetch-Ends, last_gets-Ends,
  last_modify-Ends, last_when-Ends, Ends-ok, branch-Ends, last_when-Checks, on_ok, last_check-Ends,
}
unfoldable pub use Enums.*
unfoldable pub use Rows.*
unfoldable pub use Schema.*
unfoldable pub use Monad.*
pub use Rules.*
