-- ===== src/Master/Sessions.antt =====
-- crates/master/src/sessions.rs: the outbound session of each connected host.
pub mod Current
use faultforge.Prelude.{
  ℕ, ◌+◌, ◌%◌, ◌^◌, String, Bool, false, Option, none, some, List, ◌==◌, if◌then◌else◌, is_some,
}
use faultforge.Prelude.Dict.{get, insert, remove}

-- The sending half of a session's channel. `open` says whether a send still succeeds.
pub record SessionTx : Type 0 where
  pub stream : ℕ
  pub open_ : Bool

pub record SessionMap : Type 0 where
  pub inner : List (String × (ℕ × SessionTx))
  pub epochs : ℕ

-- `SessionMap::insert`: the map after it, and the epoch handed out (`fetch_add` wraps)
unfoldable pub insert_session : SessionMap → String → SessionTx → SessionMap × ℕ
insert_session m hostname tx = (
  record { inner = insert hostname (m.epochs, tx) m.inner; epochs = (m.epochs + 1) % 2 ^ 64 },
  m.epochs,
)

abbrev is_epoch : ℕ → Option (ℕ × SessionTx) → Bool
is_epoch epoch none = false
is_epoch epoch (some (e, _)) = e == epoch

unfoldable pub remove_if_current : SessionMap → String → ℕ → SessionMap
remove_if_current m hostname epoch =
    if is_epoch epoch (get hostname m.inner)
    then record m { inner = remove hostname m.inner }
    else m

abbrev sender_of : Option (ℕ × SessionTx) → Option SessionTx
sender_of none = none
sender_of (some (_, tx)) = some tx

unfoldable pub sender : SessionMap → String → Option SessionTx
sender m hostname = sender_of (get hostname m.inner)

unfoldable pub is_connected : SessionMap → String → Bool
is_connected m hostname = is_some (get hostname m.inner)
