-- ===== src/Fat/Directory.antt =====
-- The root directory: the entries, long names (lfn_collect), short names, walk_root, fat_list. A
-- directory entry is the list of its 32 bytes.
use rpi_pico_card_reader.Prelude.{
  ℕ, zero, suc, ◌+◌, ◌-◌, ◌*◌, ◌/◌, ◌%◌, List, [], ◌∷◌, ◌++◌, Bool, true, false, ◌||◌, Option, none,
  some, if◌then◌else◌, with_option, ltb, leb, ◌==◌, u32, Array, store, get_or, take, drop, window,
}
use rpi_pico_card_reader.Fat.Volume.{Disk, rd16, rd32, FatVol}

abbrev pub fat_name_max : ℕ
fat_name_max = 64

-- struct dirwalk
pub record DirWalk : Type 0 where
  pub name : Array ℕ
  pub have_lfn : Bool

abbrev pub lfn_offsets : List ℕ
lfn_offsets = 1 ∷ 3 ∷ 5 ∷ 7 ∷ 9 ∷ 14 ∷ 16 ∷ 18 ∷ 20 ∷ 22 ∷ 24 ∷ 28 ∷ 30 ∷ []

-- The loop of lfn_collect over the offsets that are left: the next character goes to `at`.
unfoldable pub lfn_chars : List ℕ → List ℕ → ℕ → Array ℕ → Array ℕ
lfn_chars e [] at name = name
lfn_chars e (o ∷ os) at name =
    let c = rd16 e o in
    let rest = lfn_chars e os (at + 1) (store name at (if ltb c 0x80 then c else b'?')) in
    if leb (fat_name_max - 1) at
    then name
    else if c == 0 || c == 0xffff
    then store name at 0
    else rest

unfoldable pub lfn_collect : DirWalk → List ℕ → DirWalk
unfolding lfn_chars
lfn_collect w e =
    let ord = get_or e 0 0 % 32 in
    if ord == 0 || ltb (fat_name_max / 13) ord
    then w
    else record { name = lfn_chars e lfn_offsets ((ord - 1) * 13) w.name; have_lfn = true }

-- The characters before the first blank.
unfoldable pub before_blank : List ℕ → List ℕ
before_blank [] = []
before_blank (c ∷ cs) = let rest = before_blank cs in if c == b' ' then [] else c ∷ rest

unfoldable pub short_name : List ℕ → List ℕ
unfolding before_blank
short_name e =
    before_blank (take 8 e)
    ++ (if get_or e 8 0 == b' ' then [] else b'.' ∷ before_blank (take 3 (drop 8 e)))

-- A string ends before its first 0.
unfoldable pub c_string : List ℕ → List ℕ
c_string [] = []
c_string (c ∷ cs) = let rest = c_string cs in if c == 0 then [] else c ∷ rest

-- The four kinds of entries that walk_root tells apart before it calls back.
pub data EntryKind : Type 0 where
  end_of_directory long_name skipped file : EntryKind

unfoldable pub entry_kind : List ℕ → EntryKind
entry_kind e =
    if get_or e 0 0 == 0
    then end_of_directory
    else if get_or e 0 0 == 0xe5
    then skipped
    else if get_or e 11 0 % 64 == 0x0f
    then long_name
    else if get_or e 11 0 / 8 % 2 == 1 || get_or e 11 0 / 16 % 2 == 1
    then skipped
    else file

-- The name that the callback gets.
unfoldable pub entry_name : DirWalk → List ℕ → List ℕ
unfolding c_string short_name
entry_name w e =
    if w.have_lfn then c_string (window w.name 0 fat_name_max) else c_string (short_name e)

-- The walk's state: the names, the files visited, the callback's state, and whether it is over.
pub record Walk (S : Type 0) : Type 0 where
  pub names : DirWalk
  pub visited : ℕ
  pub state : S
  pub over : Bool

abbrev pub no_names : DirWalk
no_names = record { name = λ i. 0; have_lfn = false }

module _ {S : Type 0} (cb2 : List ℕ → List ℕ → S → S × Bool) where
  -- The body of the inner loop of walk_root, for an entry of a kind.
  unfoldable pub on_kind : EntryKind → List ℕ → Walk S → Walk S
  unfolding entry_name lfn_collect
  on_kind end_of_directory e w = record w { over = true }
  on_kind long_name e w = record w { names = lfn_collect w.names e }
  on_kind skipped e w = record w { names = record w.names { have_lfn = false } }
  on_kind file e w =
      let (state', rc) = cb2 (entry_name w.names e) e w.state in
      record { names = no_names; visited = w.visited + 1; state = state'; over = rc }

  unfoldable pub walk_entry : List ℕ → Walk S → Walk S
  unfolding entry_kind on_kind
  walk_entry e w = on_kind (entry_kind e) e w

  -- The entries of one sector that are left.
  unfoldable pub walk_sector : ℕ → List ℕ → Walk S → Walk S
  unfolding walk_entry
  walk_sector zero sec w = w
  walk_sector (suc n) sec w =
      let next = walk_sector n (drop 32 sec) (walk_entry (take 32 sec) w) in
      if w.over then w else next

  -- The sectors of the root directory that are left; `none` where a read fails.
  unfoldable pub walk_sectors : Disk → ℕ → ℕ → Walk S → Option (Walk S)
  unfolding walk_sector
  walk_sectors disk zero lba w = some w
  walk_sectors disk (suc n) lba w =
      let rest : List ℕ → Option (Walk S) =
        λ sec. walk_sectors disk n (u32 (lba + 1)) (walk_sector 16 sec w) in
      if w.over then some w else with_option (disk lba) none rest

  unfoldable pub walk_root : Disk → FatVol → S → Option (Walk S)
  unfolding walk_sectors
  walk_root disk v s =
      walk_sectors disk v.root_secs v.root_start
        (record { names = no_names; visited = 0; state = s; over = false })

-- fat_list, with the calls of its callback as a list of names and sizes.
unfoldable pub fat_list : Disk → FatVol → Option (List (List ℕ × ℕ) × ℕ)
unfolding walk_root
fat_list disk v =
    with_option (walk_root (λ name e files. (files ++ (name, rd32 e 28) ∷ [], false)) disk v [])
      none (λ w. some (w.state, w.visited))
