-- ===== src/Driver/Readers.antt =====
-- One reader for each priority: the open files of user space against the counts of the driver.
pub mod Claims
pub mod Counted
use lzamp.Base.{
  ℕ, zero, suc, ◌+◌, ◌-◌, ◌^◌, ◌≡◌, ◌≢◌, ◌≤◌, ◌<◌, refl, sym, ap, ◌∙◌, subst, Bool, true, false,
  not, ◌&&◌, Option, none, some, List, [], ◌∷◌, ltb, ◌==◌, if◌then◌else◌, get_or, get_elem?, set,
  length, length-set, get_or-set_self, get_or-set_ne, arith, if_both, u32, Option-cases, Bool-cases,
  inl, inr,
}
use lzamp.Base.Int.{ℤ, pos}
use lzamp.Driver.Errno
use lzamp.Driver.State.{Driver, UserChannel, zero_user}
use lzamp.Driver.User.{
  UserFile, user_of, set_user, user_open, user_claim_reader, user_release, drop_claim,
}

-- User space, and the driver that it calls.
pub record Desk (K : Type 0) : Type 0 where
  pub files : List UserFile
  pub driver : Driver K

-- A read and a poll begin with a claim. A file is named by its place among the open ones.
pub data FileEvent : Type 0 where
  open_file : ℕ → Bool → FileEvent
  claim_file close_file : ℕ → FileEvent

abbrev pub remove_at : {A : Type 0} → List A → ℕ → List A
remove_at [] i = []
remove_at (x ∷ xs) zero = xs
remove_at (x ∷ xs) (suc i) = x ∷ remove_at xs i

abbrev pub add_file : Option UserFile → List UserFile → List UserFile
add_file none files = files
add_file (some f) files = f ∷ files

module _ {K : Type 0} where
  unfoldable pub claim_at : ℕ → Option UserFile → Desk K → Desk K
  unfolding user_claim_reader
  claim_at i none s = s
  claim_at i (some f) s =
      let (ret, f', d) = user_claim_reader f s.driver in
      record { files = set s.files i f'; driver = d }

  unfoldable pub close_at : ℕ → Option UserFile → Desk K → Desk K
  unfolding user_release
  close_at i none s = s
  close_at i (some f) s = record { files = remove_at s.files i; driver = user_release f s.driver }

  -- There is a device for each of the four priorities, and memory for the file.
  unfoldable pub open_at : ℕ → Bool → Desk K → Desk K
  unfolding user_open
  open_at priority nonblocking s =
      let (ret, file, d) = user_open true priority nonblocking s.driver in
      if ltb priority 4 then record { files = add_file file s.files; driver = d } else s

  unfoldable pub desk_step : FileEvent → Desk K → Desk K
  unfolding claim_at close_at open_at
  desk_step (FileEvent.open_file priority nonblocking) s = open_at priority nonblocking s
  desk_step (FileEvent.claim_file i) s = claim_at i (get_elem? s.files i) s
  desk_step (FileEvent.close_file i) s = close_at i (get_elem? s.files i) s

  unfoldable pub desk_run : List FileEvent → Desk K → Desk K
  unfolding desk_step
  desk_run [] s = s
  desk_run (e ∷ es) s = desk_run es (desk_step e s)

-- 1 for a file that has claimed the reverse ring of `priority`.
unfoldable pub claim_of : ℕ → UserFile → ℕ
claim_of priority f = if f.reader_claimed && (f.priority == priority) then 1 else 0

unfoldable pub claims : ℕ → List UserFile → ℕ
unfolding claim_of
claims priority [] = 0
claims priority (f ∷ fs) = claim_of priority f + claims priority fs

unfoldable pub all_in_range : List UserFile → Bool
all_in_range [] = true
all_in_range (f ∷ fs) = ltb f.priority 4 && all_in_range fs
