-- ===== src/Fat/Search.antt =====
-- fat_open against fat_list: the two walks over the root directory, side by side.
use rpi_pico_card_reader.Prelude.{
  ℕ, zero, suc, ◌+◌, ◌≡◌, ◌⊎◌, inl, inr, refl, sym, subst, ap, ◌∙◌, List, [], ◌∷◌, ◌++◌, Bool, true,
  false, Bool-cases, Option, Option-cases, none, some, if◌then◌else◌, with_option,
  with_option_intro, take, drop, u32, arith,
}
use rpi_pico_card_reader.Fat.Volume.{Disk, FatVol, rd16, rd32}
use rpi_pico_card_reader.Fat.Directory.{
  EntryKind, end_of_directory, long_name, skipped, file, entry_kind, entry_name, no_names, Walk,
  on_kind, walk_entry, walk_sector, walk_sectors, walk_root, fat_list,
}
use rpi_pico_card_reader.Fat.File.{
  FatFile, ieq, blank_file, open_cb, Opened, opened, unreadable, not_found, fat_open,
}
use rpi_pico_card_reader.Fat.Entry.{IsDisk}
use rpi_pico_card_reader.Fat.Listing.{IsBytes, IsBytes-drop, walk_sector_keeps, walk_sectors_keeps}

abbrev pub Files : Type 0
Files = List (List ℕ × ℕ)

-- The size of the first file of a listing with a name, up to the case of its letters.
abbrev pub listed : List ℕ → Files → Option ℕ
listed want [] = none
listed want ((name, size) ∷ files) = if ieq name want then some size else listed want files

abbrev list_entry : List ℕ → List ℕ → Files → Files × Bool
list_entry name e files = (files ++ (name, rd32 e 28) ∷ [], false)

module _ (want : List ℕ) where
  listed-append :
      (files : Files) (name : List ℕ) (size : ℕ)
      → listed want (files ++ (name, size) ∷ [])
        ≡ with_option (listed want files) (if ieq name want then some size else none) some
  listed-append [] name size = refl
  listed-append ((n, s) ∷ files) name size = ground (arith, listed-append files name size)

  -- The walk of fat_open while it has found nothing.
  abbrev searching : Walk Files → Walk (Option FatFile)
  searching w = record { names = w.names; visited = w.visited; state = none; over = w.over }

  abbrev Both : Walk (Option FatFile) → Walk Files → Type 0
  Both wo w =
      ((wo ≡ searching w) × (listed want w.state ≡ none))
      ⊎ ((f : FatFile) × (wo.state ≡ some f)
          × (wo.over ≡ true)
          × (listed want w.state ≡ some f.size))

  on_kind-Both :
      (k : EntryKind) (e : List ℕ) (w : Walk Files)
      → listed want w.state ≡ none
      → Both (on_kind (open_cb want) k e (searching w)) (on_kind list_entry k e w)
  unfolding on_kind open_cb
  on_kind-Both end_of_directory e w h = inl (refl, h)
  on_kind-Both long_name e w h = inl (refl, h)
  on_kind-Both skipped e w h = inl (refl, h)
  on_kind-Both file e w h =
      let name = entry_name w.names e in
      let size = rd32 e 28 in
      let hit : FatFile = record blank_file { size = size; first_clus = rd16 e 26 } in
      let grown : listed want (w.state ++ (name, size) ∷ [])
          ≡ (if ieq name want then some size else none) =
        listed-append w.state name size
        ∙ ap (λ o. with_option o (if ieq name want then some size else none) some) h in
      let found : Bool → Option FatFile × Bool =
        λ b. if b then (some hit, true) else (none, false) in
      elim (Bool-cases (ieq name want)) [
        | inl p ↦ inr (
          hit,
          ap (λ b. (found b).0) p,
          ap (λ b. (found b).1) p,
          grown ∙ ap (λ b. if b then some size else none) p,
        )
        | inr p ↦ inl (
          ap
              (λ b. record {
                names = no_names;
                visited = w.visited + 1;
                state = (found b).0;
                over = (found b).1;
              })
              p,
          grown ∙ ap (λ b. if b then some size else none) p,
        )
      ]

  -- The listing goes on after the file that is found.
  keeps_listed :
      (size : ℕ) (name e : List ℕ) (files : Files)
      → IsBytes e
      → listed want files ≡ some size
      → listed want (list_entry name e files).0 ≡ some size
  keeps_listed size name e files b h =
      listed-append files name (rd32 e 28)
      ∙ ap (λ o. with_option o (if ieq name want then some (rd32 e 28) else none) some) h

  sector-over :
      (n : ℕ) (sec : List ℕ) (w : Walk (Option FatFile))
      → w.over ≡ true
      → walk_sector (open_cb want) n sec w ≡ w
  unfolding walk_sector
  sector-over zero sec w h = refl
  sector-over (suc n) sec w h =
      ap
        (λ b.
          if b
          then w
          else walk_sector (open_cb want) n (drop 32 sec)
              (walk_entry (open_cb want) (take 32 sec) w))
        h

  walk_sector-Both :
      (n : ℕ) (sec : List ℕ) (wo : Walk (Option FatFile)) (w : Walk Files)
      → IsBytes sec
      → Both wo w
      → Both (walk_sector (open_cb want) n sec wo) (walk_sector list_entry n sec w)
  unfolding walk_sector walk_entry
  walk_sector-Both zero sec wo w b h = h
  walk_sector-Both (suc n) sec wo w b (inr (f, found, over, same)) =
      subst (λ x. Both x (walk_sector list_entry (suc n) sec w))
        (sym (sector-over (suc n) sec wo over))
        (inr (
          f,
          found,
          over,
          walk_sector_keeps list_entry (λ files. listed want files ≡ some f.size)
              (keeps_listed f.size) (suc n) sec w b same,
        ))
  walk_sector-Both (suc n) sec wo w b (inl (e, same)) =
      let step : Bool → Type 0 = λ o.
        Both
          (if o
            then searching w
            else walk_sector (open_cb want) n (drop 32 sec)
                (walk_entry (open_cb want) (take 32 sec) (searching w)))
          (if o
            then w
            else walk_sector list_entry n (drop 32 sec) (walk_entry list_entry (take 32 sec) w)) in
      let next =
        walk_sector-Both n (drop 32 sec) (walk_entry (open_cb want) (take 32 sec) (searching w))
          (walk_entry list_entry (take 32 sec) w) (IsBytes-drop 32 sec b)
          (on_kind-Both (entry_kind (take 32 sec)) (take 32 sec) w same) in
      subst
        (λ x.
          Both (walk_sector (open_cb want) (suc n) sec x) (walk_sector list_entry (suc n) sec w))
        (sym e)
        (elim (Bool-cases w.over) [
          | inl p ↦ subst step (sym p) (inl (refl, same))
          | inr p ↦ subst step (sym p) next
        ])

  -- What a walk of fat_open gives beside a walk of fat_list that succeeds.
  abbrev Beside : Option (Walk (Option FatFile)) → Option (Walk Files) → Type 0
  Beside o l =
      (w : Walk Files) → l ≡ some w → (wo : Walk (Option FatFile)) × (o ≡ some wo) × Both wo w

  done_Beside :
      (wo : Walk (Option FatFile)) (w : Walk Files) → Both wo w → Beside (some wo) (some w)
  done_Beside wo w h w' e = (wo, refl, subst (λ o. with_option o (Both wo w) (Both wo)) e h)

  module _ (disk : Disk) (d : IsDisk disk) where
    sectors-over :
        (n lba : ℕ) (wo : Walk (Option FatFile))
        → wo.over ≡ true
        → walk_sectors (open_cb want) disk n lba wo ≡ some wo
    unfolding walk_sectors
    sectors-over zero lba wo h = refl
    sectors-over (suc n) lba wo h =
        let rest : List ℕ → Option (Walk (Option FatFile)) = λ sec.
          walk_sectors (open_cb want) disk n (u32 (lba + 1))
            (walk_sector (open_cb want) 16 sec wo) in
        ap (λ b. if b then some wo else with_option (disk lba) none rest) h

    walk_sectors-Beside :
        (n lba : ℕ) (wo : Walk (Option FatFile)) (w : Walk Files)
        → Both wo w
        → Beside (walk_sectors (open_cb want) disk n lba wo) (walk_sectors list_entry disk n lba w)
    unfolding walk_sectors
    walk_sectors-Beside zero lba wo w h = done_Beside wo w h
    walk_sectors-Beside (suc n) lba wo w (inr (f, found, over, same)) = λ w' e. (
      wo,
      sectors-over (suc n) lba wo over,
      inr (
        f,
        found,
        over,
        walk_sectors_keeps list_entry (λ files. listed want files ≡ some f.size)
            (keeps_listed f.size) disk d (suc n) lba w same w' e,
      ),
    )
    walk_sectors-Beside (suc n) lba wo w (inl (e, same)) =
        let opens : List ℕ → Option (Walk (Option FatFile)) = λ sec.
          walk_sectors (open_cb want) disk n (u32 (lba + 1))
            (walk_sector (open_cb want) 16 sec (searching w)) in
        let lists : List ℕ → Option (Walk Files) =
          λ sec. walk_sectors list_entry disk n (u32 (lba + 1)) (walk_sector list_entry 16 sec w) in
        let step : Bool → Type 0 = λ o.
          Beside (if o then some (searching w) else with_option (disk lba) none opens)
            (if o then some w else with_option (disk lba) none lists) in
        let read : Option (List ℕ) → Type 0 =
          λ o. Beside (with_option o none opens) (with_option o none lists) in
        subst
          (λ x.
            Beside (walk_sectors (open_cb want) disk (suc n) lba x)
              (walk_sectors list_entry disk (suc n) lba w))
          (sym e)
          (elim (Bool-cases w.over) [
            | inl p ↦ subst step (sym p) (done_Beside (searching w) w (inl (refl, same)))
            | inr p ↦ subst step (sym p) (elim (Option-cases (disk lba)) [
              | inl q ↦ subst read (sym q) (λ w' u. absurd (ground (arith, u)))
              | inr (sec, q) ↦ subst read (sym q) (
                  walk_sectors-Beside n (u32 (lba + 1))
                    (walk_sector (open_cb want) 16 sec (searching w))
                    (walk_sector list_entry 16 sec w)
                    (walk_sector-Both 16 sec (searching w) w (d.bytes lba sec q)
                      (inl (refl, same))))
            ])
          ])

-- The result of opening a name on a volume with this listing.
abbrev pub IsOpened : Option ℕ → Opened → Type 0
IsOpened size o =
    ((size ≡ none) × (o ≡ not_found)) ⊎ ((f : FatFile) × (size ≡ some f.size) × (o ≡ opened f))

-- On a volume whose root directory can be listed, fat_open opens exactly the first of the listed files
-- whose name is the wanted one up to the case of letters, with the size that is listed, and finds
-- nothing if there is none.
pub fat_open-fat_list :
    (disk : Disk) (v : FatVol) (want : List ℕ) (files : Files) (n : ℕ)
    → IsDisk disk
    → fat_list disk v ≡ some (files, n)
    → IsOpened (listed want files) (fat_open disk v want)
unfolding fat_list fat_open walk_root
fat_open-fat_list disk v want files n d e =
    with_option_intro
      (λ o. o ≡ some (files, n) → IsOpened (listed want files) (fat_open disk v want))
      (walk_root list_entry disk v []) (λ p u. absurd (ground (arith, u)))
      (λ w p u.
        let same : w.state ≡ files = ap (λ o. with_option o [] (λ x. x.0)) u in
        let (wo, opens, both) =
          walk_sectors-Beside want disk d v.root_secs v.root_start _ _ (inl (refl, refl)) w p in
        let open_at : FatFile → Opened =
          λ f. opened (record f { cur_clus = f.first_clus; clus_pos = 0 }) in
        let tail : Option (Walk (Option FatFile)) → Opened =
          λ o. with_option o unreadable (λ w. with_option w.state not_found open_at) in
        elim both [
          | inl (s, missing) ↦
              inl (ap (listed want) (sym same) ∙ missing, ap tail opens ∙ ap (λ x. tail (some x)) s)
          | inr (f, found, over, h) ↦ inr (
            record f { cur_clus = f.first_clus; clus_pos = 0 },
            ap (listed want) (sym same) ∙ h,
            ap tail opens ∙ ap (λ o. with_option o not_found open_at) found,
          )
        ])
      e
