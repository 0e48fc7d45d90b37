-- ===== src/Engine/Effect.antt =====
-- What one call of a decision script of redisengine/engine.go may do to the keys of an auction, as
-- an abstract specification: nothing that is decided, a rejection, or an acceptance.
mod Defs
mod Guards
mod Place
mod Confirm
pub use Defs.{CanTake, Decided, IsQuiet, KeepsOthers, Effect, quiet, refused, taken}
pub use Guards.{place_verdict-CanTake, confirm_verdict-CanTake}
pub use Place.{place_new-eq-place_on, place-Effect}
pub use Confirm.{confirm_new-eq-confirm_on, confirm-Effect}
