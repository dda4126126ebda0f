-- ===== src/Docs/Template/Display.antt =====
-- Which members a page displays after `filter`, described without the classes of its elements.
use scala_neko.Base.{
  ◌≡◌, refl, Bool, true, false, not, ◌&&◌, ◌||◌, List, [], ◌∷◌, ◌++◌, map, append-nil,
  if◌then◌else◌, Bool-cases, inl, inr, arith,
}
use scala_neko.Base.Text.{Text}
use scala_neko.Docs.Strings.{is_empty}
use scala_neko.Docs.Template.{Member, Block, Group, Page, has_in, owner, is_listed}
use scala_neko.Docs.Template.Filter.{
  Criteria, criteria, any_shown, any_block_shown, keeps, filter_func, filter_group,
  filter_alphabetic, filter_groups, filter_inheritance, filter,
}

-- The names of the members that a reader sees.
unfoldable pub names_shown : List Member → List Text
names_shown [] = []
names_shown (m ∷ ms) = let rest = names_shown ms in if m.shown then m.name ∷ rest else rest

unfoldable pub in_blocks : List Block → List Text
in_blocks [] = []
in_blocks (b ∷ bs) = (if b.shown then names_shown b.members else []) ++ in_blocks bs

unfoldable pub in_groups : List Group → List Text
in_groups [] = []
in_groups (g ∷ gs) = (if g.shown then in_blocks g.blocks else []) ++ in_groups gs

unfoldable pub displayed : Page → List Text
displayed p =
    (if p.all_members_shown then in_blocks p.all_members else [])
    ++ (if p.inherited_members_shown then in_blocks p.inherited_members else [])
    ++ (if p.grouped_members_shown then in_groups p.grouped_members else [])

-- All members of a list of blocks or groups.
unfoldable pub of_blocks : List Block → List Member
of_blocks [] = []
of_blocks (b ∷ bs) = b.members ++ of_blocks bs

unfoldable pub of_groups : List Group → List Member
of_groups [] = []
of_groups (g ∷ gs) = of_blocks g.blocks ++ of_groups gs

-- The members of the section that the ordering chooses.
unfoldable pub candidates : Page → List Member
candidates p =
    if has_in p.alpha
    then of_blocks p.all_members
    else if has_in p.group
    then of_groups p.grouped_members
    else of_blocks p.inherited_members

abbrev pub is_ordered : Page → Bool
is_ordered p = has_in p.alpha || has_in p.group || has_in p.inherit

last_true : (a b c : Bool) → (a || b || c) ≡ true → a ≡ false → b ≡ false → c ≡ true
last_true a b c h e f = ground arith

module _ (test : Text → Text → Bool) where
  -- A member is wanted if it is public or all are, its owner is not hidden, and the query matches.
  unfoldable pub is_wanted : Criteria → Member → Bool
  is_wanted c m =
      not (c.private_members_hidden && m.is_protected)
      && not (
          c.hide_inherited_members
          && (is_listed (owner m.name) c.hidden_superclasses_linearization
              || is_listed (owner m.name) c.hidden_superclasses_implicits))
      && (is_empty c.query || test c.query m.name || test c.query m.mbr_text)

  unfoldable pub names_wanted : Criteria → List Member → List Text
  names_wanted c [] = []
  names_wanted c (m ∷ ms) =
      let rest = names_wanted c ms in if is_wanted c m then m.name ∷ rest else rest

  keeps-eq-is_wanted : (c : Criteria) (m : Member) → keeps test c m ≡ is_wanted c m
  unfolding keeps is_wanted
  keeps-eq-is_wanted c m = ground arith

  names_shown-map :
      (c : Criteria) (ms : List Member)
      → names_shown (map (λ (m : Member). record m { shown = keeps test c m }) ms)
        ≡ names_wanted c ms
  unfolding names_shown names_wanted
  names_shown-map c [] = refl
  names_shown-map c (m ∷ ms) = rw (keeps-eq-is_wanted c m, names_shown-map c ms) refl

  names_wanted-append :
      (c : Criteria) (ms ns : List Member)
      → names_wanted c (ms ++ ns) ≡ names_wanted c ms ++ names_wanted c ns
  unfolding names_wanted
  names_wanted-append c [] ns = refl
  names_wanted-append c (m ∷ ms) ns = elim (Bool-cases (is_wanted c m)) [
    | inl e ↦ rw (names_wanted-append c ms ns, e) refl
    | inr e ↦ rw (names_wanted-append c ms ns, e) refl
  ]

  none_shown : (ms : List Member) → any_shown ms ≡ false → names_shown ms ≡ []
  unfolding any_shown names_shown
  none_shown [] h = refl
  none_shown (m ∷ ms) h = ground (arith, none_shown ms)

  none_in_blocks : (bs : List Block) → any_block_shown bs ≡ false → in_blocks bs ≡ []
  unfolding any_block_shown in_blocks
  none_in_blocks [] h = refl
  none_in_blocks (b ∷ bs) h = ground (arith, none_in_blocks bs)

  if_any : (ms : List Member) → (if any_shown ms then names_shown ms else []) ≡ names_shown ms
  if_any ms = elim (Bool-cases (any_shown ms)) [
    | inl e ↦ rw e refl
    | inr e ↦ rw (e, none_shown ms e) refl
  ]

  if_any_block :
      (bs : List Block) → (if any_block_shown bs then in_blocks bs else []) ≡ in_blocks bs
  if_any_block bs = elim (Bool-cases (any_block_shown bs)) [
    | inl e ↦ rw e refl
    | inr e ↦ rw (e, none_in_blocks bs e) refl
  ]

  in_blocks-map :
      (c : Criteria) (bs : List Block)
      → in_blocks (map (filter_func test c) bs) ≡ names_wanted c (of_blocks bs)
  unfolding in_blocks of_blocks filter_func names_wanted
  in_blocks-map c [] = refl
  in_blocks-map c (b ∷ bs) =
      rw (if_any, names_shown-map c b.members, in_blocks-map c bs, names_wanted-append) refl

  in_groups-map :
      (c : Criteria) (gs : List Group)
      → in_groups (map (filter_group test c) gs) ≡ names_wanted c (of_groups gs)
  unfolding in_groups of_groups filter_group names_wanted
  in_groups-map c [] = refl
  in_groups-map c (g ∷ gs) =
      rw (if_any_block, in_blocks-map c g.blocks, in_groups-map c gs, names_wanted-append) refl

  -- On an ordered page `filter` displays the wanted members of the section that the ordering
  -- chooses, in their order, and nothing else. Owners count unless the ordering is by inheritance.
  pub displayed-filter :
      (p : Page)
      → is_ordered p ≡ true
      → displayed (filter test p)
        ≡ names_wanted (criteria (has_in p.alpha || has_in p.group) p) (candidates p)
  unfolding displayed filter filter_alphabetic filter_groups filter_inheritance candidates
  displayed-filter p h = elim (Bool-cases (has_in p.alpha)) [
    | inl e ↦ rw (e, in_blocks-map, append-nil) (append-nil _)
    | inr e ↦ elim (Bool-cases (has_in p.group)) [
      | inl f ↦ rw (e, f, in_groups-map) refl
      | inr f ↦ rw (e, f, last_true _ _ _ h e f, in_blocks-map, append-nil) refl
    ]
  ]
