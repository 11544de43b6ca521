-- ===== src/Perif/Nodes/Laws.antt =====
-- The device nodes and the peripherals of router/peripheral-rpmsg.c under the events of udev.
use diag.Base.{
  ℕ, subst, ◌+◌, ◌<◌, ◌≡◌, refl, sym, ap, ap₂, ◌∙◌, ◌≢◌, inl, inr, true, false, not, ◌||◌, Option,
  none, some, List, [], ◌∷◌, ◌++◌, arith, ◌==◌, ==_iff, ==_refl, Bool-cases, Option-cases, All,
  All-append,
}
use diag.Bytes.{Bytes}
use diag.CircBuf.{CircBuf}
use diag.World.{Peripheral}
use diag.Cntl.DiagIds.{same_string}
use diag.Watch.{Timeval}
use diag.Watch.Timers.{watch_add_timer}
use diag.Daemon.{Devnode, State}
use diag.Perif.Nodes.{
  devnode_get, devnode_add, devnode_remove, known_name, new_peripheral, watch_flow_new, diag_name,
  apps_riva_data, peripheral_create, UdevAction, add_device, remove_device, unknown_action,
  peripheral_udev_update,
}

module _ {ℓ} {A : Type ℓ} (key : A → Bytes) where
  -- The keys in a list are different.
  abbrev pub DistinctBy : List A → Type 0
  DistinctBy [] = Unit {0}
  DistinctBy (a ∷ l) = All (λ b. key a ≢ key b) l × DistinctBy l

  DistinctBy-append :
      (l : List A) (b : A) → DistinctBy l → All (λ a. key a ≢ key b) l → DistinctBy (l ++ (b ∷ []))
  DistinctBy-append [] b d n = (tt, tt)
  DistinctBy-append (a ∷ l) b d n =
      (All-append (λ c. key a ≢ key c) l (b ∷ []) d.0 (n.0, tt), DistinctBy-append l b d.1 n.1)

same_string_self : (a : Bytes) → same_string a a ≡ true
unfolding same_string
same_string_self [] = refl
same_string_self (x ∷ a) = rw (==_refl x) (same_string_self a)

different : (a b : Bytes) → same_string a b ≡ false → a ≢ b
different a b h e = absurd (ground (arith, sym h ∙ ap (same_string a) (sym e) ∙ same_string_self a))

same_string-eq : (a b : Bytes) → same_string a b ≡ true → a ≡ b
unfolding same_string
same_string-eq [] [] h = refl
same_string-eq [] (y ∷ b) h = absurd (ground (arith, h))
same_string-eq (x ∷ a) [] h = absurd (ground (arith, h))
same_string-eq (x ∷ a) (y ∷ b) h =
    let first : (x == y) ≡ true = ground arith in
    let rest : same_string a b ≡ true = ground arith in
    ap₂ (λ p q. p ∷ q) ((==_iff x y).0 first) (same_string-eq a b rest)

no_node :
    (path : Bytes) (ds : List Devnode) → devnode_get path ds ≡ none → All (λ d. d.devnode ≢ path) ds
unfolding devnode_get
no_node path [] h = tt
no_node path (d ∷ ds) h = elim (Bool-cases (same_string d.devnode path)) [
  | inl same ↦ absurd (ground arith)
  | inr other ↦ (different d.devnode path other, no_node path ds (ground arith))
]

nowhere :
    (path : Bytes) (ds : List Devnode) → All (λ d. d.devnode ≢ path) ds → devnode_get path ds ≡ none
unfolding devnode_get
nowhere path [] h = refl
nowhere path (d ∷ ds) h = elim (Bool-cases (same_string d.devnode path)) [
  | inl same ↦ absurd (h.0 (same_string-eq d.devnode path same))
  | inr other ↦ rw (other, devnode_get) (nowhere path ds h.1)
]

abbrev pub path_of : Devnode → Bytes
path_of d = d.devnode

devnode_add-Distinct :
    (path name rproc : Bytes) (ds : List Devnode)
    → DistinctBy path_of ds
    → DistinctBy path_of (devnode_add path name rproc ds)
unfolding devnode_add
devnode_add-Distinct path name rproc ds h = elim (Option-cases (devnode_get path ds)) [
  | inl missing ↦
      rw (missing, devnode_add)
        (DistinctBy-append path_of ds (record { devnode = path; name = name; rproc = rproc }) h
          (no_node path ds missing))
  | inr (d, there) ↦ rw (there, devnode_add) h
]

remove-All :
    (P : Devnode → Type 0) (path : Bytes) (ds : List Devnode)
    → All P ds
    → All P (devnode_remove path ds)
unfolding devnode_remove
remove-All P path [] h = tt
remove-All P path (d ∷ ds) h = elim (Bool-cases (same_string d.devnode path)) [
  | inl same ↦ rw (same, devnode_remove) h.1
  | inr other ↦ rw (other, devnode_remove) (h.0, remove-All P path ds h.1)
]

other_way :
    (path : Bytes) (ds : List Devnode)
    → All (λ b. path ≢ b.devnode) ds
    → All (λ b. b.devnode ≢ path) ds
other_way path [] h = tt
other_way path (d ∷ ds) h = ((λ e. h.0 (sym e)), other_way path ds h.1)

devnode_remove-Distinct :
    (path : Bytes) (ds : List Devnode)
    → DistinctBy path_of ds
    → DistinctBy path_of (devnode_remove path ds)
      × All (λ d. d.devnode ≢ path) (devnode_remove path ds)
unfolding devnode_remove
devnode_remove-Distinct path [] h = (tt, tt)
devnode_remove-Distinct path (d ∷ ds) h = elim (Bool-cases (same_string d.devnode path)) [
  | inl same ↦
      rw (same, devnode_remove)
        (
          h.1,
          subst (λ k. All (λ b. b.devnode ≢ k) ds) (same_string-eq d.devnode path same)
              (other_way d.devnode ds h.0),
        )
  | inr other ↦
      let later = devnode_remove-Distinct path ds h.1 in
      rw (other, devnode_remove)
        (
          (remove-All (λ b. d.devnode ≢ b.devnode) path ds h.0, later.0),
          (different d.devnode path other, later.1),
        )
]

abbrev pub name_of : Peripheral → Bytes
name_of p = p.name

-- The nodes have different paths and the peripherals different names, and every peripheral's address
-- is below the next one.
pub record IsValid (s : State) : Type 0 where
  pub paths : DistinctBy path_of s.rest.devnodes
  pub names : DistinctBy name_of s.rest.world.peripherals
  pub below : All (λ p. p.id < s.fresh) s.rest.world.peripherals

no_name :
    (rproc : Bytes) (ps : List Peripheral)
    → known_name rproc ps ≡ false
    → All (λ p. p.name ≢ rproc) ps
no_name rproc [] h = tt
no_name rproc (p ∷ ps) h = (different p.name rproc (ground arith), no_name rproc ps (ground arith))

raise : (n : ℕ) (ps : List Peripheral) → All (λ p. p.id < n) ps → All (λ p. p.id < n + 1 + 1) ps
raise n [] h = tt
raise n (p ∷ ps) h = (omega (arith, h.0), raise n ps h.1)

peripheral_create-IsValid :
    (ring : CircBuf) (rproc channel : Bytes) (now : Timeval) (s : State)
    → IsValid s
    → IsValid (peripheral_create ring rproc channel now s)
unfolding peripheral_create watch_add_timer watch_flow_new
peripheral_create-IsValid ring rproc channel now s v =
    elim (Bool-cases (not (same_string channel diag_name || same_string channel apps_riva_data))) [
      | inl secondary ↦ rw (secondary, peripheral_create) v
      | inr primary ↦ elim (Bool-cases (known_name rproc s.rest.world.peripherals)) [
        | inl known ↦ rw (primary, peripheral_create, known) v
        | inr new ↦
            rw (primary, peripheral_create, new)
              (record {
                paths = v.paths;
                names =
                    DistinctBy-append name_of s.rest.world.peripherals
                      (new_peripheral s.fresh rproc ring) v.names
                      (no_name rproc s.rest.world.peripherals new);
                below =
                    All-append (λ p. p.id < s.fresh + 1 + 1) s.rest.world.peripherals
                      (new_peripheral s.fresh rproc ring ∷ [])
                      (raise s.fresh s.rest.world.peripherals v.below) (omega arith, tt);
              })
      ]
    ]

added-IsValid :
    (path name rproc : Bytes) (s : State)
    → IsValid s
    → IsValid (record s {
      rest = record (s.rest) { devnodes = devnode_add path name rproc s.rest.devnodes };
    })
added-IsValid path name rproc s v = record {
  paths = devnode_add-Distinct path name rproc s.rest.devnodes v.paths;
  names = v.names;
  below = v.below;
}

-- Every event of udev keeps the paths of the nodes different, the names of the peripherals different
-- and their addresses below the next one: a device that is added twice is one node, and it makes one
-- peripheral.
pub peripheral_udev_update-IsValid :
    (ring : CircBuf) (path : Option Bytes) (action : UdevAction) (now : Timeval) (s : State)
    → IsValid s
    → IsValid (peripheral_udev_update ring path action now s)
unfolding peripheral_udev_update
peripheral_udev_update-IsValid ring none action now s v = v
peripheral_udev_update-IsValid ring (some path) (add_device (some name) (some rproc)) now s v =
    peripheral_create-IsValid ring rproc name now
      (record s {
        rest = record (s.rest) { devnodes = devnode_add path name rproc s.rest.devnodes };
      })
      (added-IsValid path name rproc s v)
peripheral_udev_update-IsValid ring (some path) (add_device (some name) none) now s v = v
peripheral_udev_update-IsValid ring (some path) (add_device none rproc) now s v = v
peripheral_udev_update-IsValid ring (some path) remove_device now s v = record {
  paths = (devnode_remove-Distinct path s.rest.devnodes v.paths).0;
  names = v.names;
  below = v.below;
}
peripheral_udev_update-IsValid ring (some path) unknown_action now s v = v

-- After the removal of a device there is no node with its path, if the paths were different.
pub devnode_get-removed :
    (ring : CircBuf) (path : Bytes) (now : Timeval) (s : State)
    → IsValid s
    → devnode_get path (peripheral_udev_update ring (some path) remove_device now s).rest.devnodes
      ≡ none
unfolding peripheral_udev_update
devnode_get-removed ring path now s v =
    nowhere path (devnode_remove path s.rest.devnodes)
      (devnode_remove-Distinct path s.rest.devnodes v.paths).1
