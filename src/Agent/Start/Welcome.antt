-- ===== src/Agent/Start/Welcome.antt =====
-- crates/agent/src/session.rs against crates/master/src/session.rs: a start and the first registration.
use Prim.Native.String.{◌++◌ as cat}
use Prim.Native.String.append
use faultforge.Prelude.{
  ℕ, String, true, false, Bool-cases, inl, inr, Option, none, some, List, [], ◌≡◌, refl, ◌∙◌, sym,
  ap,
}
use faultforge.Prelude.Int.{ℤ}
use faultforge.Proto.Hostname.{ParseResult, parse, parse-parse}
use faultforge.Proto.Hostname as Hostname
use faultforge.Proto.Messages.{AgentPayload}
use faultforge.Master.Session as Session
use faultforge.Master.Session.{process_register, registered_as}
use faultforge.Agent.Config.{AgentConfig}
use faultforge.Agent.Start.{
  HostnameLookup, found, unreadable, ok, Started, has_prefix, contains, normalize_master_addr,
  with_hostname, start_agent,
}

contains-http : (s : String) → contains "://" (cat "http://" s) ≡ true
unfolding contains has_prefix
contains-http s =
    rw (append.cons, append.cons, append.cons, append.cons, append.cons, append.cons, append.cons)
      refl

normalize-normalize :
    (s : String) → normalize_master_addr (normalize_master_addr s) ≡ normalize_master_addr s
unfolding normalize_master_addr
normalize-normalize s = elim (Bool-cases (contains "://" s)) [
  | inl there ↦ rw (there, there) refl
  | inr not_there ↦ rw (not_there, contains-http s) refl
]

-- the host name was parsed, and the address is a normalised one
with_hostname-ok :
    (cfg : AgentConfig) (frames : List AgentPayload) (raw : String) (p : ParseResult) (s : Started)
    → parse raw ≡ p
    → with_hostname cfg frames p ≡ ok s
    → (parse s.hostname ≡ Hostname.ok s.hostname)
      × (normalize_master_addr s.master_addr ≡ s.master_addr)
unfolding with_hostname
with_hostname-ok cfg frames raw (Hostname.err e) s is h = absurd cc
with_hostname-ok cfg frames raw (Hostname.ok name) s is h =
    let named : name ≡ s.hostname = cc in
    let at : normalize_master_addr cfg.master_addr ≡ s.master_addr = cc in
    (
      parse-parse raw s.hostname (is ∙ ap Hostname.ok named),
      ap normalize_master_addr (sym at) ∙ normalize-normalize cfg.master_addr ∙ at,
    )

-- Where the agent starts, with whatever the replay gave: a first Register under its host name is
-- one that every master takes, for that same name, and acknowledges with its interval; and the
-- address that the agent connects to is normalised.
pub start_agent-IsWelcome :
    (cfg : AgentConfig) (replayed : Option (List AgentPayload)) (lookup : HostnameLookup)
    (s : Started) (now : ℤ) (interval : ℕ)
    → start_agent cfg replayed lookup ≡ ok s
    → (process_register s.hostname false now interval
        ≡ Session.ok s.hostname (Session.register_ack now interval))
      × (normalize_master_addr s.master_addr ≡ s.master_addr)
unfolding start_agent process_register registered_as
start_agent-IsWelcome cfg replayed (unreadable e) s now interval h = absurd cc
start_agent-IsWelcome cfg none (found raw) s now interval h =
    let (parsed, normal) = with_hostname-ok cfg [] raw (parse raw) s refl h in
    (rw (parsed) refl, normal)
start_agent-IsWelcome cfg (some frames) (found raw) s now interval h =
    let (parsed, normal) = with_hostname-ok cfg frames raw (parse raw) s refl h in
    (rw (parsed) refl, normal)
