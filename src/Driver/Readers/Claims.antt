-- ===== src/Driver/Readers/Claims.antt =====
-- The claims of a list of open files, and the arithmetic of the counts.
use lzamp.Base.{
  ℕ, zero, suc, ◌+◌, ◌-◌, ◌^◌, ◌≡◌, ◌≢◌, ◌≤◌, ◌<◌, refl, ap, subst, Bool, true, false, ◌&&◌, some,
  List, [], ◌∷◌, ◌==◌, if◌then◌else◌, get_or, get_elem?, set, length, get_or-set_self,
  get_or-set_ne, arith, u32, Bool-cases, inl, inr,
}
use lzamp.Driver.State.{UserChannel, zero_user}
use lzamp.Driver.User.{UserFile}
use lzamp.Driver.Readers.{remove_at, claim_of, claims, all_in_range}

pub claims-set :
    (priority i : ℕ) (fs : List UserFile) (f f' : UserFile)
    → get_elem? fs i ≡ some f
    → claims priority (set fs i f') + claim_of priority f
      ≡ claims priority fs + claim_of priority f'
unfolding claims
claims-set priority i [] f f' at = absurd (cc)
claims-set priority zero (g ∷ fs) f f' at = ground arith
claims-set priority (suc i) (g ∷ fs) f f' at = omega (arith, claims-set priority i fs f f' at)

pub claims-remove_at :
    (priority i : ℕ) (fs : List UserFile) (f : UserFile)
    → get_elem? fs i ≡ some f
    → claims priority (remove_at fs i) + claim_of priority f ≡ claims priority fs
unfolding claims
claims-remove_at priority i [] f at = absurd (cc)
claims-remove_at priority zero (g ∷ fs) f at = ground arith
claims-remove_at priority (suc i) (g ∷ fs) f at = omega (arith, claims-remove_at priority i fs f at)

pub in_range_at :
    (i : ℕ) (fs : List UserFile) (f : UserFile)
    → get_elem? fs i ≡ some f
    → all_in_range fs ≡ true
    → f.priority < 4
unfolding all_in_range
in_range_at i [] f at all = absurd (cc)
in_range_at zero (g ∷ fs) f at all = ground arith
in_range_at (suc i) (g ∷ fs) f at all = in_range_at i fs f at (ground arith)

pub in_range-set :
    (i : ℕ) (fs : List UserFile) (f : UserFile)
    → f.priority < 4
    → all_in_range fs ≡ true
    → all_in_range (set fs i f) ≡ true
unfolding all_in_range
in_range-set i [] f lt all = refl
in_range-set zero (g ∷ fs) f lt all = ground arith
in_range-set (suc i) (g ∷ fs) f lt all = ground (arith, in_range-set i fs f lt)

pub in_range-remove_at :
    (i : ℕ) (fs : List UserFile) → all_in_range fs ≡ true → all_in_range (remove_at fs i) ≡ true
unfolding all_in_range
in_range-remove_at i [] all = refl
in_range-remove_at zero (g ∷ fs) all = ground arith
in_range-remove_at (suc i) (g ∷ fs) all = ground (arith, in_range-remove_at i fs)

pub is_equal : (p q : ℕ) → (p == q) ≡ true → p ≡ q
is_equal p q e = ground arith

pub both_equal : (b : Bool) (p q : ℕ) → (b && (p == q)) ≡ true → p ≡ q
both_equal b p q e = ground arith

pub unclaimed :
    (q i : ℕ) (fs : List UserFile) (f : UserFile)
    → get_elem? fs i ≡ some f
    → claims q (set fs i f) ≡ claims q fs
unclaimed q i fs f at = omega (arith, claims-set q i fs f f at)

pub claim_of-own : (q : ℕ) (f : UserFile) → f.reader_claimed ≡ false → claim_of q f ≡ 0
unfolding claim_of
claim_of-own q f e = ground arith

pub claim_of-claimed :
    (q : ℕ) (f : UserFile)
    → f.reader_claimed ≡ true
    → claim_of q f ≡ (if f.priority == q then 1 else 0)
unfolding claim_of
claim_of-claimed q f e = ground arith

-- The count of one channel changes, and no other.
pub count-set :
    (users : List UserChannel) (p q n : ℕ)
    → p < length users
    → (get_or
        (set users p (record (get_or users p zero_user) { reader_open_count = n }))
        q
        zero_user).reader_open_count
      ≡ (if p == q then n else (get_or users q zero_user).reader_open_count)
count-set users p q n lt =
    let c = record (get_or users p zero_user) { reader_open_count = n } in
    elim (Bool-cases (p == q)) [
      | inl e ↦
          let same : p ≡ q = ground arith in
          rw e (
            ap (λ (u : UserChannel). u.reader_open_count)
              (subst (λ x. get_or (set users p c) x zero_user ≡ c) same
                (get_or-set_self users p c zero_user lt)))
      | inr e ↦
          let other : p ≢ q = ground arith in
          rw e (
            ap (λ (u : UserChannel). u.reader_open_count)
              (get_or-set_ne users p q c zero_user other))
    ]

-- The arithmetic of a claim: `own` is the count of the file's channel, `old` that of another one.
pub raised :
    (same : Bool) (own old held : ℕ)
    → own ≡ 0
    → old ≡ held
    → (same ≡ true → held ≡ 0)
    → (if same then u32 (own + 1) else old) ≡ held + (if same then 1 else 0)
raised same own old held e₁ e₂ e₃ = ground arith

pub still_one :
    (same : Bool) (held : ℕ)
    → held ≤ 1
    → (same ≡ true → held ≡ 0)
    → held + (if same then 1 else 0) ≤ 1
still_one same held le e = ground arith

-- And of a close.
pub lowered :
    (gone : Bool) (own old held left : ℕ)
    → held ≤ 1
    → old ≡ held
    → (gone ≡ true → own ≡ held)
    → left + (if gone then 1 else 0) ≡ held
    → (if gone then u32 (own + 2 ^ 32 - 1) else old) ≡ left
lowered gone own old held left le e₁ e₂ e₃ = ground arith
