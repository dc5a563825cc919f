-- ===== src/Master/Dispatch/Accept.antt =====
-- What an accepted experiment starts as: the record that is minted, and the frames that go out.
use faultforge.Prelude.{
  ℕ, suc, ◌≡◌, ◌≢◌, ◌⊎◌, ◌∙◌, refl, sym, ap, String, Bool, true, false, not, ◌&&◌, none, List, [],
  ◌∷◌, ◌++◌, All, all, Bool-cases, inl, inr, is_some, eq_iff, arith,
}
use faultforge.Prelude.Int.{ℤ}
use faultforge.Prelude.Dict.{get, insert, get-insert}
use faultforge.Fault.State.{InstanceState, state_eq}
use faultforge.Proto.Hostname.{HostnameError, ParseResult, ok, err, parse}
use faultforge.Master.Catalog.{Catalog}
use faultforge.Master.Registry.{Registry}
use faultforge.Master.Sessions.{SessionMap}
use faultforge.Master.Experiment.{
  ActionDefinition, ExperimentDefinition, HostFacts, InstanceRecord, mint_id, hostname_id_safe,
}
use faultforge.Master.Experiment.Validate.{facts_of, validate}
use faultforge.Master.Experiment.Acceptable.{IsReady, IsActionOk, validate_iff}
use faultforge.Master.Experiment.Mint.{mint_hosts, mint_actions, mint_experiment, mint_instance}
use faultforge.Master.Experiment.Record.{outcome_in, trigger_in}
use faultforge.Master.Experiment.Ids.{HasSafeHosts, host_ids, salvo, salvo-IsDistinct, safe_trim}
use faultforge.Master.Dispatch.Marks.{none_asked}
use faultforge.Master.Dispatch.Updates.{ids}
use faultforge.Master.Dispatch.Handled.{IsSound}
use faultforge.Master.Dispatch.Start.{gather_host, gather_hosts, gather_actions, gather_host_facts}
use faultforge.Master.Dispatch.Frames.{Dispatcher}

abbrev pub is_ok : ParseResult → Bool
is_ok (ok _) = true
is_ok (err _) = false

pub parse_cases :
    (p : ParseResult) → ((x : HostnameError) × (p ≡ err x)) ⊎ ((h : String) × (p ≡ ok h))
parse_cases (ok h) = inr (h, refl)
parse_cases (err x) = inl (x, refl)

-- Only a host that parses is ever found registered.
abbrev pub OnlyParsed : List (String × HostFacts) → Type 0
OnlyParsed facts =
    (h : String) → (facts_of (get h facts)).registered ≡ true → is_ok (parse h) ≡ true

pub OnlyParsed-nil : OnlyParsed []
unfolding get
OnlyParsed-nil h r = cc

OnlyParsed-insert :
    (facts : List (String × HostFacts)) (host : String) (f : HostFacts)
    → is_ok (parse host) ≡ true
    → OnlyParsed facts
    → OnlyParsed (insert host f facts)
OnlyParsed-insert facts host f p known h r =
    ground (arith, get-insert host h f facts, eq_iff host h, known h)

module _ (registry : Registry) (sessions : SessionMap) where
  gather_host-OnlyParsed :
      (facts : List (String × HostFacts)) (host : String)
      → OnlyParsed facts
      → OnlyParsed (gather_host registry sessions facts host)
  unfolding gather_host
  gather_host-OnlyParsed facts host known h r = elim (Bool-cases (is_some (get host facts))) [
    | inl e ↦ known h (rw (e, gather_host) at r)
    | inr e ↦ elim (parse_cases (parse host)) [
      | inl (x, bad) ↦ known h (rw (e, bad, gather_host) at r)
      | inr (name, good) ↦
          OnlyParsed-insert facts host _ (rw good) known h (rw (e, good, gather_host) at r)
    ]
  ]

  gather_hosts-OnlyParsed :
      (facts : List (String × HostFacts)) (hosts : List String)
      → OnlyParsed facts
      → OnlyParsed (gather_hosts registry sessions facts hosts)
  unfolding gather_hosts
  gather_hosts-OnlyParsed facts [] known = known
  gather_hosts-OnlyParsed facts (host ∷ hosts) known =
      gather_hosts-OnlyParsed (gather_host registry sessions facts host) hosts
        (gather_host-OnlyParsed facts host known)

  pub gather_actions-OnlyParsed :
      (facts : List (String × HostFacts)) (actions : List ActionDefinition)
      → OnlyParsed facts
      → OnlyParsed (gather_actions registry sessions facts actions)
  unfolding gather_actions
  gather_actions-OnlyParsed facts [] known = known
  gather_actions-OnlyParsed facts (a ∷ actions) known =
      gather_actions-OnlyParsed (gather_hosts registry sessions facts a.hosts) actions
        (gather_hosts-OnlyParsed facts a.hosts known)

-- What an accepted action's hosts are: they parse to themselves, and are safe and distinct.
abbrev pub HasParsedHosts : ActionDefinition → Type 0
HasParsedHosts a = All (λ h. parse h ≡ ok h) a.hosts

parsed_self : (h : String) → hostname_id_safe h ≡ true → is_ok (parse h) ≡ true → parse h ≡ ok h
unfolding parse
parsed_self h s p = ground (arith, safe_trim h s)

module _ (facts : List (String × HostFacts)) (known : OnlyParsed facts) where
  ready_hosts :
      (hs : List String)
      → All (IsReady facts) hs
      → All (λ h. parse h ≡ ok h) hs × All (λ h. hostname_id_safe h ≡ true) hs
  ready_hosts [] r = (tt, tt)
  ready_hosts (h ∷ hs) (r, rs) =
      let (parsed, safe) = ready_hosts hs rs in
      ((parsed_self h r.0 (known h r.1), parsed), (r.0, safe))

  pub ready_actions :
      (catalog : Catalog) (actions : List ActionDefinition)
      → All (IsActionOk catalog facts) actions
      → All HasParsedHosts actions × All HasSafeHosts actions
  ready_actions catalog [] r = (tt, tt)
  ready_actions catalog (a ∷ actions) (r, rs) =
      let (parsed, safe) = ready_hosts a.hosts r.3 in
      let (all_parsed, all_safe) = ready_actions catalog actions rs in
      ((parsed, all_parsed), ((safe, r.4), all_safe))

ids-append : (xs ys : List InstanceRecord) → ids (xs ++ ys) ≡ ids xs ++ ids ys
ids-append [] ys = refl
ids-append (x ∷ xs) ys = ap (◌∷◌ x.instance_id) (ids-append xs ys)

module _ (e : String) (now : ℤ) where
  ids-mint_hosts :
      (i : ℕ) (hs : List String)
      → All (λ h. parse h ≡ ok h) hs
      → ids (mint_hosts e now i hs) ≡ host_ids e i hs
  unfolding mint_hosts mint_instance
  ids-mint_hosts i [] p = refl
  ids-mint_hosts i (h ∷ hs) p = ground (arith, p.0, ids-mint_hosts i hs p.1)

  -- No host of an accepted experiment is skipped: the minted ids are the whole salvo, in order.
  pub ids-mint_actions :
      (i : ℕ) (actions : List ActionDefinition)
      → All HasParsedHosts actions
      → ids (mint_actions e now i actions) ≡ salvo e i actions
  unfolding mint_actions
  ids-mint_actions i [] p = refl
  ids-mint_actions i (a ∷ actions) p = rw (
    ids-append (mint_hosts e now i a.hosts),
    ids-mint_hosts i a.hosts p.0,
    ids-mint_actions (suc i) actions p.1,
  )

-- Nothing is reported of a minted record yet.
abbrev pub is_fresh : List InstanceRecord → Bool
is_fresh = all λ i. state_eq i.state InstanceState.pending && not i.abort_requested

module _ (e : String) (now : ℤ) where
  fresh_hosts :
      (i : ℕ) (hs : List String) (rest : List InstanceRecord)
      → is_fresh rest ≡ true
      → is_fresh (mint_hosts e now i hs ++ rest) ≡ true
  unfolding mint_hosts mint_instance
  fresh_hosts i [] rest f = f
  fresh_hosts i (h ∷ hs) rest f = ground (arith, fresh_hosts i hs rest f)

  fresh_actions :
      (i : ℕ) (actions : List ActionDefinition) → is_fresh (mint_actions e now i actions) ≡ true
  unfolding mint_actions
  fresh_actions i [] = refl
  fresh_actions i (a ∷ actions) =
      fresh_hosts i a.hosts (mint_actions e now (suc i) actions) (fresh_actions (suc i) actions)

fresh_none_asked : (is : List InstanceRecord) → is_fresh is ≡ true → none_asked is ≡ true
fresh_none_asked [] f = refl
fresh_none_asked (i ∷ is) f = ground (arith, fresh_none_asked is)

fresh_untriggered : (is : List InstanceRecord) → is_fresh is ≡ true → trigger_in is [] ≡ none
unfolding trigger_in
fresh_untriggered [] f = refl
fresh_untriggered (i ∷ is) f = ground (arith, fresh_untriggered is)

fresh_live : (is : List InstanceRecord) → is ≢ [] → is_fresh is ≡ true → outcome_in is [] ≡ none
unfolding outcome_in
fresh_live [] n f = absurd (n refl)
fresh_live (i ∷ is) n f = ground arith

salvo_nonempty :
    (e : String) (catalog : Catalog) (facts : List (String × HostFacts))
    (actions : List ActionDefinition)
    → actions ≢ []
    → All (IsActionOk catalog facts) actions
    → salvo e 0 actions ≢ []
salvo_nonempty e catalog facts [] n ok_ = absurd (n refl)
salvo_nonempty e catalog facts (a ∷ actions) n ok_ = nonempty_hosts a.hosts ok_.0.0
  where
    nonempty_hosts : (hs : List String) → hs ≢ [] → host_ids e 0 hs ++ salvo e 1 actions ≢ []
    nonempty_hosts [] m = absurd (m refl)
    nonempty_hosts (h ∷ hs) m = λ x. cc

-- The record that is minted for an experiment that passes validation is sound, and has one
-- instance for each host of each action, in order, with pairwise different ids.
pub minted-IsSound :
    (d : Dispatcher) (definition : ExperimentDefinition) (now : ℤ)
    → validate definition d.catalog (gather_host_facts d definition) ≡ []
    → let id = mint_id now d.seq in
      let e = mint_experiment id definition d.default_grace_secs now d.deadline_margin_ms in
      IsSound e × (ids e.instances ≡ salvo id 0 definition.actions)
unfolding mint_experiment
minted-IsSound d definition now clean =
    let id = mint_id now d.seq in
    let facts = gather_host_facts d definition in
    let acceptable = (validate_iff definition d.catalog facts).0 clean in
    let known =
      gather_actions-OnlyParsed d.registry d.sessions [] definition.actions OnlyParsed-nil in
    let (parsed, safe) = ready_actions facts known d.catalog definition.actions acceptable.1 in
    let all_ids = ids-mint_actions id now 0 definition.actions parsed in
    let fresh = fresh_actions id now 0 definition.actions in
    let is = mint_actions id now 0 definition.actions in
    let some_id = salvo_nonempty id d.catalog facts definition.actions acceptable.0 acceptable.1 in
    let live = fresh_live is (λ none_. some_id (sym all_ids ∙ ap ids none_)) fresh in
    (
      record {
        inv = record {
          running_quiet = λ r. (refl, fresh_none_asked is fresh, fresh_untriggered is fresh);
          halting_asked = λ r. cc;
          open_live = λ r. live;
          concluded_named = λ o r. cc;
        };
        distinct = rw all_ids (salvo-IsDistinct id 0 definition.actions safe);
      },
      all_ids,
    )
