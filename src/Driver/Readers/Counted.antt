-- ===== src/Driver/Readers/Counted.antt =====
-- The driver counts the readers of each priority.
use lzamp.Base.{
  ℕ, ◌+◌, ◌-◌, ◌^◌, ◌≡◌, ◌≤◌, ◌<◌, refl, sym, ap, ◌∙◌, subst, Bool, true, false, not, ◌&&◌, none,
  some, List, [], ◌∷◌, ltb, ◌==◌, if◌then◌else◌, get_or, get_elem?, set, length, length-set, arith,
  if_both, u32, Option-cases, inl, inr,
}
use lzamp.Base.Int.{ℤ, pos}
use lzamp.Driver.Errno
use lzamp.Driver.State.{Driver, zero_user}
use lzamp.Driver.User.{
  UserFile, user_of, set_user, user_open, user_claim_reader, user_release, drop_claim,
}
use lzamp.Driver.Readers.{
  Desk, FileEvent, add_file, claim_at, close_at, open_at, desk_step, desk_run, claim_of, claims,
  all_in_range,
}
use lzamp.Driver.Readers.Claims.{
  claims-set, claims-remove_at, in_range_at, in_range-set, in_range-remove_at, is_equal, both_equal,
  unclaimed, claim_of-own, claim_of-claimed, count-set, raised, still_one, lowered,
}

module _ {K : Type 0} where
  -- The driver counts, for each priority, the open files that have claimed it, and there is one at
  -- most.
  pub record Counted (s : Desk K) : Type 0 where
    pub devices : length s.driver.mailmsg_user ≡ 4
    pub in_range : all_in_range s.files ≡ true
    pub count :
        (priority : ℕ)
        → priority < 4
        → (user_of priority s.driver).reader_open_count ≡ claims priority s.files
    pub one : (priority : ℕ) → priority < 4 → claims priority s.files ≤ 1

  user_open-file :
      (priority : ℕ) (nonblocking : Bool) (d : Driver K) (q : ℕ) (fs : List UserFile)
      → let (ret, file, d') = user_open true priority nonblocking d in
        (d'.mailmsg_user ≡ d.mailmsg_user)
        × (claims q (add_file file fs) ≡ claims q fs)
        × (priority < 4 → all_in_range fs ≡ true → all_in_range (add_file file fs) ≡ true)
  unfolding user_open claims claim_of all_in_range
  user_open-file priority nonblocking d q fs = ground arith

  open_at-Counted :
      (priority : ℕ) (nonblocking : Bool) (s : Desk K)
      → Counted s
      → Counted (open_at priority nonblocking s)
  unfolding open_at
  open_at-Counted priority nonblocking s c =
      let (ret, file, d) = user_open true priority nonblocking s.driver in
      let fact = user_open-file priority nonblocking s.driver in
      let (users, same, range) = fact 0 s.files in
      if_both Counted (ltb priority 4) (record { files = add_file file s.files; driver = d }) s
        (λ lt. record {
          devices = ap length users ∙ c.devices;
          in_range = range (ground arith) c.in_range;
          count = λ q h.
              ap (λ l. (get_or l q zero_user).reader_open_count) users
              ∙ c.count q h
              ∙ sym (fact q s.files).1;
          one = λ q h. subst (λ n. n ≤ 1) (sym (fact q s.files).1) (c.one q h);
        })
        (λ h. c)

  abbrev After : ℕ → List UserFile → ℤ × UserFile × Driver K → Type 0
  After i fs r = Counted (record { files = set fs i r.1; driver = r.2 })

  -- A claim that changes nothing.
  refused-Counted :
      (i : ℕ) (f : UserFile) (s : Desk K) (ret : ℤ)
      → get_elem? s.files i ≡ some f
      → Counted s
      → After i s.files (ret, f, s.driver)
  refused-Counted i f s ret at c = record {
    devices = c.devices;
    in_range = in_range-set i s.files f (in_range_at i s.files f at c.in_range) c.in_range;
    count = λ q h. c.count q h ∙ sym (unclaimed q i s.files f at);
    one = λ q h. subst (λ n. n ≤ 1) (sym (unclaimed q i s.files f at)) (c.one q h);
  }

  taken-claims :
      (q i : ℕ) (f : UserFile) (s : Desk K)
      → get_elem? s.files i ≡ some f
      → f.reader_claimed ≡ false
      → claims q (set s.files i (record f { reader_claimed = true }))
        ≡ claims q s.files + (if f.priority == q then 1 else 0)
  taken-claims q i f s at free = omega (
    arith,
    claims-set q i s.files f (record f { reader_claimed = true }) at,
    claim_of-own q f free,
    claim_of-claimed q (record f { reader_claimed = true }) refl,
  )

  taken-Counted :
      (i : ℕ) (f : UserFile) (s : Desk K) (ret : ℤ)
      → get_elem? s.files i ≡ some f
      → f.reader_claimed ≡ false
      → (user_of f.priority s.driver).reader_open_count ≡ 0
      → Counted s
      → let c = user_of f.priority s.driver in
        After i s.files (
          ret,
          record f { reader_claimed = true },
          set_user f.priority
              (record c { reader_open_count = u32 (c.reader_open_count + 1) })
              s.driver,
        )
  taken-Counted i f s ret at free none_open c =
      let lt = in_range_at i s.files f at c.in_range in
      let users = s.driver.mailmsg_user in
      let own = c.count f.priority lt in
      let zero_here : (q : ℕ) → (f.priority == q) ≡ true → claims q s.files ≡ 0 =
        λ q e. subst (λ x. claims x s.files ≡ 0) (is_equal f.priority q e) (sym own ∙ none_open) in
      record {
        devices = length-set users f.priority _ ∙ c.devices;
        in_range = in_range-set i s.files (record f { reader_claimed = true }) lt c.in_range;
        count = λ q h.
            count-set users f.priority q (u32 ((user_of f.priority s.driver).reader_open_count + 1))
              (subst (λ n. f.priority < n) (sym c.devices) lt)
            ∙ raised (f.priority == q) _ _ _ none_open (c.count q h) (zero_here q)
            ∙ sym (taken-claims q i f s at free);
        one = λ q h.
            subst (λ n. n ≤ 1) (sym (taken-claims q i f s at free))
              (still_one (f.priority == q) _ (c.one q h) (zero_here q));
      }

  claim_at-Counted :
      (i : ℕ) (f : UserFile) (s : Desk K)
      → get_elem? s.files i ≡ some f
      → Counted s
      → Counted (claim_at i (some f) s)
  unfolding claim_at user_claim_reader
  claim_at-Counted i f s at c =
      let channel = user_of f.priority s.driver in
      let taken =
        set_user f.priority
          (record channel { reader_open_count = u32 (channel.reader_open_count + 1) }) s.driver in
      if_both (After i s.files) f.reader_claimed (pos 0, f, s.driver) _
        (λ e. refused-Counted i f s (pos 0) at c)
        (λ free.
          if_both (After i s.files) (not (channel.reader_open_count == 0))
            (Errno.ebusy, f, s.driver) (pos 0, record f { reader_claimed = true }, taken)
            (λ e. refused-Counted i f s Errno.ebusy at c)
            (λ e. taken-Counted i f s (pos 0) at free (ground arith) c))

  drop_claim-count :
      (f : UserFile) (d : Driver K) (q : ℕ)
      → f.priority < length d.mailmsg_user
      → (user_of q (drop_claim f d)).reader_open_count ≡ (
          if f.reader_claimed && (f.priority == q)
          then u32 ((user_of f.priority d).reader_open_count + 2 ^ 32 - 1)
          else (user_of q d).reader_open_count)
  unfolding drop_claim
  drop_claim-count f d q lt = ground (
    arith,
    count-set d.mailmsg_user f.priority q
        (u32 ((user_of f.priority d).reader_open_count + 2 ^ 32 - 1)) lt,
  )

  drop_claim-devices :
      (f : UserFile) (d : Driver K) → length (drop_claim f d).mailmsg_user ≡ length d.mailmsg_user
  unfolding drop_claim
  drop_claim-devices f d = ground (
    arith,
    length-set d.mailmsg_user f.priority (record (user_of f.priority d) {
      reader_open_count = u32 ((user_of f.priority d).reader_open_count + 2 ^ 32 - 1);
    }),
  )

  close_at-Counted :
      (i : ℕ) (f : UserFile) (s : Desk K)
      → get_elem? s.files i ≡ some f
      → Counted s
      → Counted (close_at i (some f) s)
  unfolding close_at user_release claim_of
  close_at-Counted i f s at c =
      let lt = in_range_at i s.files f at c.in_range in
      let owns : (q : ℕ)
          → (f.reader_claimed && (f.priority == q)) ≡ true
          → (user_of f.priority s.driver).reader_open_count ≡ claims q s.files =
        λ q e.
          c.count f.priority lt
          ∙ ap (λ x. claims x s.files) (both_equal f.reader_claimed f.priority q e) in
      record {
        devices = drop_claim-devices f s.driver ∙ c.devices;
        in_range = in_range-remove_at i s.files c.in_range;
        count = λ q h.
            drop_claim-count f s.driver q (subst (λ n. f.priority < n) (sym c.devices) lt)
            ∙ lowered (f.reader_claimed && (f.priority == q)) _ _ _ _ (c.one q h) (c.count q h)
                (owns q) (claims-remove_at q i s.files f at);
        one = λ q h.
            let rest = claims-remove_at q i s.files f at in let at_most = c.one q h in omega arith;
      }

  nothing_claimed : (i : ℕ) (s : Desk K) → Counted s → Counted (claim_at i none s)
  unfolding claim_at
  nothing_claimed i s c = c

  nothing_closed : (i : ℕ) (s : Desk K) → Counted s → Counted (close_at i none s)
  unfolding close_at
  nothing_closed i s c = c

  desk_step-Counted : (e : FileEvent) (s : Desk K) → Counted s → Counted (desk_step e s)
  unfolding desk_step
  desk_step-Counted (FileEvent.open_file priority nonblocking) s c =
      open_at-Counted priority nonblocking s c
  desk_step-Counted (FileEvent.claim_file i) s c = elim (Option-cases (get_elem? s.files i)) [
    | inl e ↦ subst (λ o. Counted (claim_at i o s)) (sym e) (nothing_claimed i s c)
    | inr (f, e) ↦ subst (λ o. Counted (claim_at i o s)) (sym e) (claim_at-Counted i f s e c)
  ]
  desk_step-Counted (FileEvent.close_file i) s c = elim (Option-cases (get_elem? s.files i)) [
    | inl e ↦ subst (λ o. Counted (close_at i o s)) (sym e) (nothing_closed i s c)
    | inr (f, e) ↦ subst (λ o. Counted (close_at i o s)) (sym e) (close_at-Counted i f s e c)
  ]

  -- User space opens the devices, reads or polls them (which claims the reverse ring of a priority)
  -- and closes them, in any order. If at the start the driver has its four devices, its count of
  -- readers of each priority is the number of open files on the four priorities that have claimed
  -- it, and that is at most one, then so it is at the end.
  pub desk_run-Counted : (es : List FileEvent) (s : Desk K) → Counted s → Counted (desk_run es s)
  unfolding desk_run
  desk_run-Counted [] s c = c
  desk_run-Counted (e ∷ es) s c = desk_run-Counted es (desk_step e s) (desk_step-Counted e s c)
