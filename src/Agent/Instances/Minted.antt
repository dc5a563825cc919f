-- ===== src/Agent/Instances/Minted.antt =====
-- crates/master/src/experiment.rs against crates/agent/src/supervisor.rs: the ids that the master
-- mints are ids that an agent takes.
use Prim.Native.Char.{code}
use Prim.Native.String.{◌++◌ as concat}
use Prim.Native.String.append
use text.Mathlib.Text.{◌==◌ as str_eq}
use faultforge.Prelude.{
  ℕ, suc, ◌≡◌, refl, ap, String, true, false, Bool-cases, inl, inr, eq_iff, arith,
}
use faultforge.Prelude.Int.{ℤ, pos, negsuc}
use faultforge.Prelude.Decimal.{show, show_ℤ, show_bytes}
use faultforge.Prelude.Text.{is_empty, is_digit, all_bytes, all_bytes-append, all_bytes_mono}
use faultforge.Master.Experiment.{mint_id, instance_id, is_id_byte, hostname_id_safe}
use faultforge.Agent.Instances.{is_instance_byte, valid_instance_id}

show_safe : (n : ℕ) → all_bytes is_instance_byte (show n) ≡ true
show_safe n = all_bytes_mono is_digit is_instance_byte (show n) (λ c h. ground arith) (show_bytes n)

show_ℤ_safe : (z : ℤ) → all_bytes is_instance_byte (show_ℤ z) ≡ true
unfolding show_ℤ
show_ℤ_safe (pos n) = show_safe n
show_ℤ_safe (negsuc n) =
    all_bytes-append is_instance_byte "-" (show (suc n)) refl (show_safe (suc n))

mint_id_safe : (now : ℤ) (seq : ℕ) → all_bytes is_instance_byte (mint_id now seq) ≡ true
unfolding mint_id
mint_id_safe now seq =
    all_bytes-append is_instance_byte "exp-" (concat (show_ℤ now) (concat "-" (show seq))) refl (
      all_bytes-append is_instance_byte (show_ℤ now) (concat "-" (show seq)) (show_ℤ_safe now)
        (all_bytes-append is_instance_byte "-" (show seq) refl (show_safe seq)))

hostname_safe : (h : String) → hostname_id_safe h ≡ true → all_bytes is_instance_byte h ≡ true
unfolding hostname_id_safe
hostname_safe h s =
    all_bytes_mono is_id_byte is_instance_byte h (λ c k. ground arith) (ground arith)

-- the code of the first character
abbrev head_code : String → ℕ
head_code String.[] = 0
head_code (String.◌∷◌ c _) = code c

other_text : (s t : String) → head_code s ≡ 101 → head_code t ≡ 46 → str_eq s t ≡ false
other_text s t e d = elim (Bool-cases (str_eq s t)) [
  | inl same ↦ let codes = ap head_code ((eq_iff s t).0 same) in absurd (omega arith)
  | inr other ↦ other
]

head_id : (now : ℤ) (seq : ℕ) (t : String) → head_code (concat (mint_id now seq) t) ≡ 101
unfolding mint_id
head_id now seq t = rw (append.cons, append.cons) refl

nonempty_of_head : (s : String) → head_code s ≡ 101 → is_empty s ≡ false
nonempty_of_head String.[] h = absurd (omega arith)
nonempty_of_head (String.◌∷◌ c s) h = refl

-- Every instance id that the master mints for a host that passes its validation is one that the
-- agent of that host takes, and can name a journal file by.
pub minted_is_valid :
    (now : ℤ) (seq : ℕ) (hostname : String) (action_index : ℕ)
    → hostname_id_safe hostname ≡ true
    → valid_instance_id (instance_id (mint_id now seq) hostname action_index) ≡ true
unfolding valid_instance_id instance_id
minted_is_valid now seq hostname action_index s =
    let rest = concat ":" (concat hostname (concat ":" (show action_index))) in
    let id = concat (mint_id now seq) rest in
    let bytes = all_bytes-append is_instance_byte (mint_id now seq) rest (mint_id_safe now seq) (
      all_bytes-append is_instance_byte ":" (concat hostname (concat ":" (show action_index))) refl
        (all_bytes-append is_instance_byte hostname (concat ":" (show action_index))
          (hostname_safe hostname s)
          (all_bytes-append is_instance_byte ":" (show action_index) refl
            (show_safe action_index)))) in
    let head = head_id now seq rest in
    rw (nonempty_of_head id head, other_text id "." head refl, other_text id ".." head refl, bytes)
      refl
