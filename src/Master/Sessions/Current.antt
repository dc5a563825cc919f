-- ===== src/Master/Sessions/Current.antt =====
-- crates/master/src/sessions.rs: a closing stream takes only its own entry away.
use faultforge.Prelude.{
  ℕ, ◌≡◌, ◌≢◌, refl, String, some, List, [], ◌∷◌, All, eq_iff, eq_refl, ◌∙◌, arith,
}
use faultforge.Prelude.Dict.{get, get-insert, get-remove}
use faultforge.Master.Sessions.{SessionTx, SessionMap, insert_session, remove_if_current, sender}

-- Streams close, each with its host and its epoch.
abbrev pub close_all : SessionMap → List (String × ℕ) → SessionMap
close_all m [] = m
close_all m ((h, epoch) ∷ cs) = close_all (remove_if_current m h epoch) cs

-- The close of another stream, of this host or another.
abbrev pub IsOther : String → ℕ → String × ℕ → Type 0
IsOther h epoch c = c.0 ≡ h → c.1 ≢ epoch

get-remove_if_current :
    (m : SessionMap) (h : String) (epoch : ℕ) (tx : SessionTx) (c : String × ℕ)
    → IsOther h epoch c
    → get h m.inner ≡ some (epoch, tx)
    → get h (remove_if_current m c.0 c.1).inner ≡ some (epoch, tx)
unfolding remove_if_current
get-remove_if_current m h epoch tx (h', e') o g =
    ground (arith, eq_iff h' h, get-remove h' h m.inner, o)

get-close_all :
    (m : SessionMap) (h : String) (epoch : ℕ) (tx : SessionTx) (cs : List (String × ℕ))
    → All (IsOther h epoch) cs
    → get h m.inner ≡ some (epoch, tx)
    → get h (close_all m cs).inner ≡ some (epoch, tx)
get-close_all m h epoch tx [] os g = g
get-close_all m h epoch tx (c ∷ cs) os g =
    get-close_all (remove_if_current m c.0 c.1) h epoch tx cs os.1
      (get-remove_if_current m h epoch tx c os.0 g)

-- The newest session of a host stays its session, whatever other streams close later: those of
-- other hosts, and those of the same host with another epoch.
pub sender-close_all :
    (m : SessionMap) (h : String) (tx : SessionTx) (cs : List (String × ℕ))
    → All (IsOther h (insert_session m h tx).1) cs
    → sender (close_all (insert_session m h tx).0 cs) h ≡ some tx
unfolding sender insert_session
sender-close_all m h tx cs os =
    rw
      (get-close_all (insert_session m h tx).0 h m.epochs tx cs os
        (get-insert h h (m.epochs, tx) m.inner ∙ rw (eq_refl h) refl))
      refl
