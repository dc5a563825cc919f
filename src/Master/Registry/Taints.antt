-- ===== src/Master/Registry/Taints.antt =====
-- crates/master/src/registry.rs: what keeps the taint flag of a host, and what changes it.
use faultforge.Prelude.{
  ◌≡◌, refl, String, Bool, true, List, [], ◌∷◌, is_some, eq_iff, eq_refl, ◌∙◌, Option-cases, inl,
  inr, arith,
}
use faultforge.Prelude.Int.{ℤ}
use faultforge.Prelude.Dict.{get, get-insert}
use faultforge.Master.Registry.{
  AgentInfo, Registry, is_tainted, register_agent, set_taint, update_heartbeat,
}

-- What the registry hears of a host besides its taint.
pub data Contact : Type 0 where
  registers beats : String → ℤ → Contact

abbrev pub hear : Registry → Contact → Registry
hear reg (registers h now) = register_agent reg h now
hear reg (beats h now) = update_heartbeat reg h now

abbrev pub hear_all : Registry → List Contact → Registry
hear_all reg [] = reg
hear_all reg (c ∷ cs) = hear_all (hear reg c) cs

tainted-hear :
    (reg : Registry) (c : Contact) (h : String)
    → is_tainted (get h (hear reg c)) ≡ is_tainted (get h reg)
unfolding register_agent update_heartbeat
tainted-hear reg (registers k now) h =
    let info : AgentInfo = record {
      hostname = k;
      name = k;
      last_seen = now;
      tainted = is_tainted (get k reg);
    } in
    ground (arith, eq_iff k h, get-insert k h info reg)
tainted-hear reg (beats k now) h = elim (Option-cases (get k reg)) [
  | inl unknown ↦ rw (unknown, update_heartbeat) refl
  | inr (info, known) ↦
      rw (known, update_heartbeat)
        (ground (arith, eq_iff k h, get-insert k h (record info { last_seen = now }) reg))
]

tainted-hear_all :
    (reg : Registry) (cs : List Contact) (h : String)
    → is_tainted (get h (hear_all reg cs)) ≡ is_tainted (get h reg)
tainted-hear_all reg [] h = refl
tainted-hear_all reg (c ∷ cs) h = tainted-hear_all (hear reg c) cs h ∙ tainted-hear reg c h

tainted-set_taint :
    (reg : Registry) (h : String) (b : Bool)
    → is_some (get h reg) ≡ true
    → is_tainted (get h (set_taint reg h b)) ≡ b
unfolding set_taint
tainted-set_taint reg h b known = elim (Option-cases (get h reg)) [
  | inl unknown ↦ cc
  | inr (info, found) ↦
      rw (found, set_taint) (rw (get-insert h h (record info { tainted = b }) reg, eq_refl h) refl)
]

-- What a registered host's agent last said of its taint stands, whatever registrations and heartbeats
-- follow, of this host or of others.
pub tainted-hear_all-set_taint :
    (reg : Registry) (h : String) (b : Bool) (cs : List Contact)
    → is_some (get h reg) ≡ true
    → is_tainted (get h (hear_all (set_taint reg h b) cs)) ≡ b
tainted-hear_all-set_taint reg h b cs known =
    tainted-hear_all (set_taint reg h b) cs h ∙ tainted-set_taint reg h b known
