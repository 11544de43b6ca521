-- ===== src/Cntl/DiagIds.antt =====
-- router/diag_cntl.c: the identifiers that the router gives to the processes of its peripherals.
use diag.Base.{
  ℕ, ◌+◌, ◌-◌, ◌/◌, ◌%◌, ◌^◌, ◌≤◌, ◌<◌, ◌≡◌, refl, ap, ◌∙◌, ◌≢◌, Bool, true, false, ◌&&◌, ◌||◌,
  Option, none, some, List, [], ◌∷◌, ◌++◌, arith, ltb, leb, ◌==◌, if◌then◌else◌, ==_refl, length,
  take, drop, All,
}
use diag.Bytes.{Bytes, u8, u32, get32, le32}
use diag.World.{Alloc, Peripheral, Ret, ok, einval, enomem}
use diag.Queue.{◌>>=◌}
use diag.System.{DiagId}
use diag.Cntl.Send.{push_cntl}

-- The bytes of a string before its closing zero.
unfoldable pub c_string : Bytes → Bytes
c_string [] = []
c_string (c ∷ cs) = let rest = c_string cs in if c == 0 then [] else c ∷ rest

-- Whether `strcmp` gives 0, on strings without their zeros.
unfoldable pub same_string : Bytes → Bytes → Bool
same_string [] [] = true
same_string [] (d ∷ ds) = false
same_string (c ∷ cs) [] = false
same_string (c ∷ cs) (d ∷ ds) = c == d && same_string cs ds

-- `sizeof(struct diag_id_tbl_t)`
abbrev pub sizeof_diag_id : ℕ
sizeof_diag_id = 24

-- The identifier and the length are `uint8_t`.
unfoldable pub register_diag_id : Alloc → ℕ → Bytes → ℕ → List DiagId → Ret × List DiagId
register_diag_id alloc diag_id process_name len ids =
    if len == 0 || u8 diag_id == 0
    then (einval, ids)
    else if alloc (sizeof_diag_id + len)
    then (
      ok,
      ids
          ++ (record {
            diag_id = u8 diag_id;
            process_name = take (len - 1) process_name ++ (0 ∷ []);
          }
              ∷ []),
    )
    else (enomem, ids)

unfoldable pub find_diag_id : Bytes → List DiagId → Option ℕ
find_diag_id name [] = none
find_diag_id name (d ∷ ids) =
    if same_string (c_string d.process_name) name then some d.diag_id else find_diag_id name ids

unfoldable pub diag_id_exists : ℕ → List DiagId → Bool
diag_id_exists diag_id [] = false
diag_id_exists diag_id (d ∷ ids) = diag_id == d.diag_id || diag_id_exists diag_id ids

-- Where the process name of a packet begins; `none` where the read is too short. `n` is the length
-- of the whole read.
unfoldable pub name_offset : Peripheral → Bytes → ℕ → Option ℕ
name_offset p pkt n =
    if p.features / 2 ^ 19 % 2 == 1 && leb 2 (get32 pkt 8)
    then (if ltb n 28 then none else some (20 + get32 pkt 16))
    else if ltb n 16
    then none
    else some 16

-- The table of identifiers with the static `diag_id`.
pub record Ids : Type 0 where
  pub table : List DiagId
  pub last : ℕ

-- A known name keeps its identifier; a new one gets the packet's, or the next one, if it is free.
unfoldable pub choose_diag_id : Alloc → Bytes → Bytes → ℕ → Ids → Ret × Ids
choose_diag_id alloc pkt name len s = elim (find_diag_id name s.table) [
  | some found ↦ (ok, record s { last = found })
  | none ↦
      let version_3 : Bool = leb 3 (get32 pkt 8) in
      let wanted : ℕ = if version_3 then get32 pkt 12 else u32 (s.last + 1) in
      let last : ℕ = if version_3 then s.last else wanted in
      let (r, table) = register_diag_id alloc wanted name len s.table in
      if diag_id_exists wanted s.table then (einval, record s { last = last }) else elim r [
        | ok ↦ (ok, record { table = table; last = wanted })
        | _ ↦ (einval, record { table = table; last = last })
      ]
]

-- The reply: the identifier, version 1, and the name.
unfoldable pub diag_id_reply : ℕ → Bytes → ℕ → Bytes
diag_id_reply diag_id name len =
    le32 33 ++ (le32 (8 + len) ++ (le32 1 ++ (le32 diag_id ++ (take (len - 1) name ++ (0 ∷ [])))))

-- The reply is sent where the choice succeeded.
unfoldable pub answer : Alloc → Peripheral → Ret × Ids → Bytes → ℕ → Option (Ret × Peripheral × Ids)
answer alloc p (r, s) name len = elim r [
  | ok ↦ do p' ← push_cntl alloc p (diag_id_reply s.last name len); some (ok, p', s)
  | failure ↦ some (failure, p, s)
]

unfoldable pub diag_cntl_process_diag_id :
    Alloc → Bytes → ℕ → Peripheral × Ids → Option (Ret × Peripheral × Ids)
diag_cntl_process_diag_id alloc pkt n (p, s) = elim (name_offset p pkt n) [
  | none ↦ some (einval, p, s)
  | some offset ↦
      let name = c_string (drop offset pkt) in
      let len = u8 (length name + 1) in
      answer alloc p (choose_diag_id alloc pkt name len s) name len
]

-- A name as a packet carries it: no zero inside, and short enough for the length's byte.
abbrev pub IsName : Bytes → Type 0
IsName name = (length name < 255) × All (λ c. c ≢ 0) name

c_string-append : (name : Bytes) → All (λ c. c ≢ 0) name → c_string (name ++ (0 ∷ [])) ≡ name
unfolding c_string
c_string-append [] h = refl
c_string-append (c ∷ name) h = ground (arith, c_string-append name h.1, h.0)

same_string_refl : (name : Bytes) → same_string name name ≡ true
unfolding same_string
same_string_refl [] = refl
same_string_refl (c ∷ name) = rw (==_refl c) (same_string_refl name)

take-length : (name : Bytes) → take (length name) name ≡ name
take-length [] = refl
take-length (c ∷ name) = ap (λ t. c ∷ t) (take-length name)

find_diag_id-append :
    (name : Bytes) (ids more : List DiagId)
    → find_diag_id name ids ≡ none
    → find_diag_id name (ids ++ more) ≡ find_diag_id name more
unfolding find_diag_id
find_diag_id-append name [] more h = refl
find_diag_id-append name (d ∷ ids) more h = ground (arith, find_diag_id-append name ids more)

-- The entry that a registration adds.
abbrev pub new_entry : ℕ → Bytes → DiagId
new_entry diag_id name = record { diag_id = u8 diag_id; process_name = name ++ (0 ∷ []) }

register_diag_id-adds :
    (alloc : Alloc) (diag_id : ℕ) (name : Bytes) (ids : List DiagId)
    → u8 diag_id ≢ 0
    → alloc (sizeof_diag_id + (length name + 1)) ≡ true
    → register_diag_id alloc diag_id name (length name + 1) ids
      ≡ (ok, ids ++ (new_entry diag_id name ∷ []))
unfolding register_diag_id
register_diag_id-adds alloc diag_id name ids ne g =
    rw (empty, zero_id, g, whole, take-length name) refl
  where
    empty : (length name + 1 == 0) ≡ false
    empty = ground arith

    zero_id : (u8 diag_id == 0) ≡ false
    zero_id = ground arith

    whole : length name + 1 - 1 ≡ length name
    whole = omega arith

find_diag_id-new :
    (diag_id : ℕ) (name : Bytes)
    → IsName name
    → find_diag_id name (new_entry diag_id name ∷ []) ≡ some (u8 diag_id)
unfolding find_diag_id
find_diag_id-new diag_id name v = rw (c_string-append name v.1, same_string_refl name) refl

-- With memory granted, a new name of less than 255 bytes, none of them zero, is found under the low
-- byte of the identifier it is registered with, where that byte is not zero.
pub find_diag_id-register :
    (alloc : Alloc) (diag_id : ℕ) (name : Bytes) (ids : List DiagId)
    → IsName name
    → u8 diag_id ≢ 0
    → alloc (sizeof_diag_id + (length name + 1)) ≡ true
    → find_diag_id name ids ≡ none
    → find_diag_id name (register_diag_id alloc diag_id name (length name + 1) ids).1
      ≡ some (u8 diag_id)
find_diag_id-register alloc diag_id name ids v ne g new =
    rw (register_diag_id-adds alloc diag_id name ids ne g) (
      find_diag_id-append name ids (new_entry diag_id name ∷ []) new
      ∙ find_diag_id-new diag_id name v)

exists_not :
    (diag_id : ℕ) (ids : List DiagId)
    → 256 ≤ diag_id
    → All (λ d. d.diag_id < 256) ids
    → diag_id_exists diag_id ids ≡ false
unfolding diag_id_exists
exists_not diag_id [] big small = refl
exists_not diag_id (d ∷ ids) big small = ground (arith, exists_not diag_id ids big small.1, small.0)

-- An identifier of 256 or more is never found to be taken in a table of bytes, while a new name that
-- is registered with it is found under its low byte: two processes can get the same identifier.
pub register_diag_id_wraps :
    (alloc : Alloc) (diag_id : ℕ) (name : Bytes) (ids : List DiagId)
    → 256 ≤ diag_id
    → All (λ d. d.diag_id < 256) ids
    → IsName name
    → u8 diag_id ≢ 0
    → alloc (sizeof_diag_id + (length name + 1)) ≡ true
    → find_diag_id name ids ≡ none
    → (diag_id_exists diag_id ids ≡ false)
      × (find_diag_id name (register_diag_id alloc diag_id name (length name + 1) ids).1
          ≡ some (diag_id % 256))
register_diag_id_wraps alloc diag_id name ids big small v ne g new =
    (exists_not diag_id ids big small, find_diag_id-register alloc diag_id name ids v ne g new)
