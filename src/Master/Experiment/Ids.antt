-- ===== src/Master/Experiment/Ids.antt =====
-- Instance ids: whose they are, and that no two instances of an experiment share one.
use Prim.Native.Char.{Char}
use Prim.Native.String.{◌++◌ as concat}
use Prim.Native.String.append
use text.Mathlib.TextLemmas.{append_cancel_left}
use faultforge.Prelude.{
  ℕ, suc, ◌<◌, ◌≡◌, ◌≢◌, ◌∙◌, refl, sym, ap, String, true, false, not, Option, some, List, [], ◌∷◌,
  ◌++◌, All, All-append, IsDistinct, ◌==◌, arith,
}
use faultforge.Prelude.Int.{ℤ, pos, negsuc}
use faultforge.Prelude.Decimal.{show, show_ℤ, show-injective, show_bytes}
use faultforge.Prelude.Text.{
  is_empty, is_digit, is_free, split_once, split_once-append, all_bytes-append, all_bytes_mono,
  is_whitespace, trim, trim_solid,
}
use faultforge.Master.Experiment.{
  ActionDefinition, mint_id, instance_id, owning_experiment_id, is_id_byte, hostname_id_safe,
}

abbrev colon : Char
colon = ":"

-- The text between an id's colons is what `split_once` cuts at.
colon-append : (t : String) → concat ":" t ≡ String.◌∷◌ colon t
colon-append t = append.cons colon String.[] t ∙ ap (String.◌∷◌ colon) (append.nil t)

is_free-show : (n : ℕ) → is_free b':' (show n) ≡ true
is_free-show n =
    all_bytes_mono is_digit (λ c. not (c == b':')) (show n) (λ c h. ground arith) (show_bytes n)

is_free-show_ℤ : (z : ℤ) → is_free b':' (show_ℤ z) ≡ true
unfolding show_ℤ
is_free-show_ℤ (pos n) = is_free-show n
is_free-show_ℤ (negsuc n) =
    all_bytes-append (λ c. not (c == b':')) "-" (show (suc n)) refl (is_free-show (suc n))

is_free-mint_id : (now_ms : ℤ) (seq : ℕ) → is_free b':' (mint_id now_ms seq) ≡ true
unfolding mint_id
is_free-mint_id now_ms seq =
    let p = λ (c : ℕ). not (c == b':') in
    all_bytes-append p "exp-" (concat (show_ℤ now_ms) (concat "-" (show seq))) refl (
      all_bytes-append p (show_ℤ now_ms) (concat "-" (show seq)) (is_free-show_ℤ now_ms)
        (all_bytes-append p "-" (show seq) refl (is_free-show seq)))

pub is_empty-append : (s t : String) → is_empty s ≡ false → is_empty (concat s t) ≡ false
is_empty-append String.[] t h = cc
is_empty-append (String.◌∷◌ c s) t h = rw append.cons refl

is_empty-append_cons : (s t : String) (c : Char) → is_empty (concat s (String.◌∷◌ c t)) ≡ false
is_empty-append_cons String.[] t c = rw append.nil refl
is_empty-append_cons (String.◌∷◌ d s) t c = rw append.cons refl

split_colon :
    (s t : String) → is_free b':' s ≡ true → split_once b':' (concat s (concat ":" t)) ≡ some (s, t)
split_colon s t f = rw (colon-append t) (split_once-append colon s t f)

pub mint_id_nonempty : (now_ms : ℤ) (seq : ℕ) → is_empty (mint_id now_ms seq) ≡ false
unfolding mint_id
mint_id_nonempty now_ms seq = is_empty-append "exp-" _ refl

-- Every id that this master mints for an instance is attributed to the experiment that it was
-- minted for, whatever the host and the action.
pub owner_of_minted :
    (now_ms : ℤ) (seq : ℕ) (hostname : String) (action_index : ℕ)
    → let id = mint_id now_ms seq in
      owning_experiment_id (instance_id id hostname action_index) ≡ some id
unfolding owning_experiment_id instance_id
owner_of_minted now_ms seq hostname action_index =
    let id = mint_id now_ms seq in
    rw (
      split_colon id (concat hostname (concat ":" (show action_index)))
          (is_free-mint_id now_ms seq),
      mint_id_nonempty now_ms seq,
      colon-append (show action_index),
      is_empty-append_cons hostname (show action_index) colon,
    )

parts_eq :
    (a a' b b' : String)
    → ◌≡◌ {A = Option (String × String)} (some (a, b)) (some (a', b'))
    → (a ≡ a') × (b ≡ b')
parts_eq a a' b b' h = (ground arith, ground arith)

-- For hostnames without a colon, two instances of an experiment share an id only if they are of
-- the same host and action.
pub id-injective :
    (e h h' : String) (i i' : ℕ)
    → is_free b':' h ≡ true
    → is_free b':' h' ≡ true
    → instance_id e h i ≡ instance_id e h' i'
    → (h ≡ h') × (i ≡ i')
unfolding instance_id
id-injective e h h' i i' f f' same =
    let tail =
      append_cancel_left e (concat ":" (concat h (concat ":" (show i))))
        (concat ":" (concat h' (concat ":" (show i')))) same in
    let tail' =
      append_cancel_left ":" (concat h (concat ":" (show i))) (concat h' (concat ":" (show i')))
        tail in
    let (hosts, indexes) = parts_eq h h' (show i) (show i') (
      sym (split_colon h (show i) f)
      ∙ (ap (split_once b':') tail' ∙ split_colon h' (show i') f')) in
    (hosts, show-injective i i' indexes)

-- A hostname that is safe in an id has no colon, and nothing to trim.
pub safe_free : (h : String) → hostname_id_safe h ≡ true → is_free b':' h ≡ true
unfolding hostname_id_safe
safe_free h s =
    all_bytes_mono is_id_byte (λ c. not (c == b':')) h (λ c k. ground arith) (ground arith)

pub safe_trim : (h : String) → hostname_id_safe h ≡ true → trim h ≡ h
unfolding hostname_id_safe is_whitespace
safe_trim h s =
    trim_solid h (
      all_bytes_mono is_id_byte (λ c. not (is_whitespace c)) h (λ c k. ground arith) (ground arith))

-- The ids of an experiment's salvo, in dispatch order: one for each host of each action.
abbrev pub host_ids : String → ℕ → List String → List String
host_ids e i [] = []
host_ids e i (h ∷ hs) = instance_id e h i ∷ host_ids e i hs

abbrev pub salvo : String → ℕ → List ActionDefinition → List String
salvo e i [] = []
salvo e i (a ∷ actions) = host_ids e i a.hosts ++ salvo e (suc i) actions

-- What validation settles of an action's hosts.
abbrev pub HasSafeHosts : ActionDefinition → Type 0
HasSafeHosts a = All (λ h. hostname_id_safe h ≡ true) a.hosts × IsDistinct a.hosts

abbrev AllSafe : List String → Type 0
AllSafe = All λ h. hostname_id_safe h ≡ true

module _ (e : String) where
  -- An id of another host, or of a later action, is another id.
  apart_hosts :
      (h : String) (i j : ℕ) (hs : List String)
      → hostname_id_safe h ≡ true
      → AllSafe hs
      → (i ≡ j → All (λ y. h ≢ y) hs)
      → All (λ y. instance_id e h i ≢ y) (host_ids e j hs)
  apart_hosts h i j [] s all d = tt
  apart_hosts h i j (x ∷ xs) s all d = (
    λ same.
        let (hosts, indexes) = id-injective e h x i j (safe_free h s) (safe_free x all.0) same in
        (d indexes).0 hosts,
    apart_hosts h i j xs s all.1 (λ k. (d k).1),
  )

  apart_salvo :
      (h : String) (i j : ℕ) (actions : List ActionDefinition)
      → i < j
      → hostname_id_safe h ≡ true
      → All HasSafeHosts actions
      → All (λ y. instance_id e h i ≢ y) (salvo e j actions)
  apart_salvo h i j [] lt s all = tt
  apart_salvo h i j (a ∷ actions) lt s all =
      All-append _ (host_ids e j a.hosts) (salvo e (suc j) actions)
        (apart_hosts h i j a.hosts s all.0.0 (λ k. absurd (omega arith)))
        (apart_salvo h i (suc j) actions (omega arith) s all.1)

  IsDistinct-hosts :
      (i : ℕ) (hs : List String) (actions : List ActionDefinition)
      → AllSafe hs
      → IsDistinct hs
      → All HasSafeHosts actions
      → IsDistinct (salvo e (suc i) actions)
      → IsDistinct (host_ids e i hs ++ salvo e (suc i) actions)
  IsDistinct-hosts i [] actions s d all rest = rest
  IsDistinct-hosts i (h ∷ hs) actions s d all rest = (
    All-append _ (host_ids e i hs) (salvo e (suc i) actions)
        (apart_hosts h i i hs s.0 s.1 (λ _. d.0))
        (apart_salvo h i (suc i) actions (omega arith) s.0 all),
    IsDistinct-hosts i hs actions s.1 d.1 all rest,
  )

  -- No two instances of a validated experiment share an id.
  pub salvo-IsDistinct :
      (i : ℕ) (actions : List ActionDefinition)
      → All HasSafeHosts actions
      → IsDistinct (salvo e i actions)
  salvo-IsDistinct i [] all = tt
  salvo-IsDistinct i (a ∷ actions) (here, there) =
      IsDistinct-hosts i a.hosts actions here.0 here.1 there
        (salvo-IsDistinct (suc i) actions there)
