-- ===== src/Docs/Template/Upkeep.antt =====
-- What the handlers of a page keep up: the members are filtered, and one control of a pair or of
-- the orderings is in.
use scala_neko.Base.{
  ℕ, ◌≡◌, refl, ap, sym, ◌∙◌, Bool, true, false, List, [], ◌∷◌, map, if◌then◌else◌, Bool-cases,
  Option, none, some, inl, inr,
}
use scala_neko.Base.Text.{Text}
use scala_neko.Docs.Template.{Block, Group, Page, has_in, has_out}
use scala_neko.Docs.Template.Filter.{
  Criteria, criteria, any_shown, any_block_shown, filter_func, filter_group, filter_alphabetic,
  filter_groups, filter_inheritance, keeps, filter,
}
use scala_neko.Docs.Template.Handlers.{
  prefilter, order_group_if, load, edit, tab, enable_public, enable_all, expose_member, keyup,
  clear_input, click_linearization, click_implicits, hide_all, show_all, order_alpha, order_inherit,
  order_group, click_alpha, click_inherit, click_group,
}

-- What the reader does.
pub data Action : Type 0 where
  public_clicked all_clicked cleared hide_all_clicked show_all_clicked : Action
  alpha_clicked inherit_clicked group_clicked : Action
  key_released : ℕ → Text → Action
  linearization_clicked implicits_clicked : ℕ → Action
  exposed : Text → Bool → Action
  edited : Text → Action
  tabbed : Action

module _ (test : Text → Text → Bool) where
  unfoldable pub handle : Action → Page → Page
  handle public_clicked p = enable_public test p
  handle all_clicked p = enable_all test p
  handle cleared p = clear_input test p
  handle hide_all_clicked p = hide_all test p
  handle show_all_clicked p = show_all test p
  handle alpha_clicked p = click_alpha test p
  handle inherit_clicked p = click_inherit test p
  handle group_clicked p = click_group test p
  handle (key_released key_code value) p = keyup test key_code value p
  handle (linearization_clicked i) p = click_linearization test i p
  handle (implicits_clicked i) p = click_implicits test i p
  handle (exposed parent_name is_protected) p = expose_member test parent_name is_protected p
  handle (edited value) p = edit value p
  handle tabbed p = tab p

  -- Whether an action filters the members again.
  unfoldable pub is_filtering : Action → Page → Bool
  is_filtering public_clicked p = has_out p.public_only
  is_filtering all_clicked p = has_out p.all
  is_filtering alpha_clicked p = has_out p.alpha
  is_filtering inherit_clicked p = has_out p.inherit
  is_filtering group_clicked p = has_out p.group
  is_filtering (edited value) p = false
  is_filtering tabbed p = false
  is_filtering a p = true

  -- The pages that are reached from a page as it is loaded, with the text that the filter box had
  -- when the members were filtered last. The box is empty at first, so that the comments, whose texts
  -- `initInherit` finds after the first `filter`, do not count.
  pub data Reach (p : Page) : Page → Text → Type 0 where
    loaded :
        (grouped : List Group) (inherited : List Block)
        → p.input ≡ []
        → Reach p (load test grouped inherited p) (load test grouped inherited p).input
    acts :
        {q : Page} {asked : Text} (a : Action)
        → Reach p q asked
        → Reach p (handle a q) (if is_filtering a q then (handle a q).input else asked)

  map-twice {ℓ} :
      {A : Type ℓ} (f : A → A)
      → ((x : A) → f (f x) ≡ f x)
      → (xs : List A) → map f (map f xs) ≡ map f xs
  map-twice f h [] = refl
  map-twice f h (x ∷ xs) = rw (h x, map-twice f h xs) refl

  filter_func-twice :
      (c : Criteria) (b : Block) → filter_func test c (filter_func test c b) ≡ filter_func test c b
  unfolding filter_func keeps
  filter_func-twice c b =
      ap (λ ms. record { members = ms; shown = any_shown ms }) (map-twice _ (λ m. refl) b.members)

  filter_group-twice :
      (c : Criteria) (g : Group)
      → filter_group test c (filter_group test c g) ≡ filter_group test c g
  unfolding filter_group
  filter_group-twice c g =
      ap (λ bs. record { blocks = bs; shown = any_block_shown bs })
        (map-twice _ (filter_func-twice c) g.blocks)

  filter_alphabetic-twice :
      (p : Page) → filter_alphabetic test (filter_alphabetic test p) ≡ filter_alphabetic test p
  unfolding filter_alphabetic criteria
  filter_alphabetic-twice p =
      ap (λ bs. record (filter_alphabetic test p) { all_members = bs })
        (map-twice _ (filter_func-twice (criteria true p)) p.all_members)

  filter_groups-twice :
      (p : Page) → filter_groups test (filter_groups test p) ≡ filter_groups test p
  unfolding filter_groups criteria
  filter_groups-twice p =
      ap (λ gs. record (filter_groups test p) { grouped_members = gs })
        (map-twice _ (filter_group-twice (criteria true p)) p.grouped_members)

  filter_inheritance-twice :
      (p : Page) → filter_inheritance test (filter_inheritance test p) ≡ filter_inheritance test p
  unfolding filter_inheritance criteria
  filter_inheritance-twice p =
      ap (λ bs. record (filter_inheritance test p) { inherited_members = bs })
        (map-twice _ (filter_func-twice (criteria false p)) p.inherited_members)

  -- `filter` does what `f` does to a page, and to the page that `f` gives.
  twice-of :
      (f : Page → Page) (p : Page)
      → filter test p ≡ f p
      → filter test (f p) ≡ f (f p)
      → f (f p) ≡ f p
      → filter test (filter test p) ≡ filter test p
  twice-of f p a b c = ap (filter test) a ∙ b ∙ c ∙ sym a

  -- Filtering a page that is filtered changes nothing.
  pub filter-twice : (p : Page) → filter test (filter test p) ≡ filter test p
  unfolding filter filter_alphabetic filter_groups filter_inheritance
  filter-twice p = elim (Bool-cases (has_in p.alpha)) [
    | inl e ↦
        twice-of (filter_alphabetic test) p (rw e refl) (rw e refl) (filter_alphabetic-twice p)
    | inr e ↦ elim (Bool-cases (has_in p.group)) [
      | inl f ↦
          twice-of (filter_groups test) p (rw (e, f) refl) (rw (e, f) refl) (filter_groups-twice p)
      | inr f ↦ elim (Bool-cases (has_in p.inherit)) [
        | inl k ↦
            twice-of (filter_inheritance test) p (rw (e, f, k) refl) (rw (e, f, k) refl)
              (filter_inheritance-twice p)
        | inr k ↦ twice-of (λ q. q) p (rw (e, f, k) refl) (rw (e, f, k) refl) refl
      ]
    ]
  ]

  -- The members shown are those that the controls select, for this text in the filter box.
  pub IsFiltered : Text → Page → Type 0
  IsFiltered asked q = filter test (record q { input = asked }) ≡ record q { input = asked }

  always-IsFiltered : (r : Page) → IsFiltered (filter test r).input (filter test r)
  unfolding IsFiltered
  always-IsFiltered r = filter-twice r

  if-IsFiltered :
      (b : Bool) (r q : Page) (asked : Text)
      → IsFiltered asked q
      → IsFiltered
          (if b then (if b then filter test r else q).input else asked)
          (if b then filter test r else q)
  if-IsFiltered true r q asked h = always-IsFiltered r
  if-IsFiltered false r q asked h = h

  either-IsFiltered :
      (b : Bool) (r s : Page)
      → IsFiltered
          (if b then filter test r else filter test s).input
          (if b then filter test r else filter test s)
  either-IsFiltered true r s = always-IsFiltered r
  either-IsFiltered false r s = always-IsFiltered s

  handle-IsFiltered :
      (a : Action) (q : Page) (asked : Text)
      → IsFiltered asked q
      → IsFiltered (if is_filtering a q then (handle a q).input else asked) (handle a q)
  unfolding handle is_filtering enable_public enable_all clear_input hide_all show_all click_alpha
      order_alpha click_inherit order_inherit click_group order_group keyup click_linearization
      click_implicits expose_member edit tab IsFiltered
  handle-IsFiltered public_clicked q asked h = if-IsFiltered _ _ q asked h
  handle-IsFiltered all_clicked q asked h = if-IsFiltered _ _ q asked h
  handle-IsFiltered cleared q asked h = always-IsFiltered _
  handle-IsFiltered hide_all_clicked q asked h = always-IsFiltered _
  handle-IsFiltered show_all_clicked q asked h = always-IsFiltered _
  handle-IsFiltered alpha_clicked q asked h = if-IsFiltered _ _ q asked h
  handle-IsFiltered inherit_clicked q asked h = if-IsFiltered _ _ q asked h
  handle-IsFiltered group_clicked q asked h = if-IsFiltered _ _ q asked h
  handle-IsFiltered (key_released key_code value) q asked h = either-IsFiltered _ _ _
  handle-IsFiltered (linearization_clicked i) q asked h = always-IsFiltered _
  handle-IsFiltered (implicits_clicked i) q asked h = always-IsFiltered _
  handle-IsFiltered (exposed parent_name is_protected) q asked h = either-IsFiltered _ _ _
  handle-IsFiltered (edited value) q asked h = h
  handle-IsFiltered tabbed q asked h = h

  -- With the alphabetic ordering the members below the headings do not count.
  alphabetic-IsFiltered :
      (p : Page) (grouped : List Group) (inherited : List Block)
      → has_in p.alpha ≡ true
      → let q = record (filter test p) {
        grouped_members = grouped;
        inherited_members = inherited;
      } in
        filter test q ≡ q
  unfolding filter filter_alphabetic criteria
  alphabetic-IsFiltered p grouped inherited e =
      rw (e, e)
        (ap
          (λ bs. record (filter_alphabetic test p) {
            grouped_members = grouped;
            inherited_members = inherited;
            all_members = bs;
          })
          (map-twice _ (filter_func-twice (criteria true p)) p.all_members))

  order_group_if-IsFiltered :
      (o : Option Bool) (q : Page)
      → filter test q ≡ q
      → filter test (order_group_if test o q) ≡ order_group_if test o q
  unfolding order_group
  order_group_if-IsFiltered none q h = h
  order_group_if-IsFiltered (some b) q h = filter-twice _

  load-IsFiltered :
      (p : Page) (grouped : List Group) (inherited : List Block)
      → has_in p.alpha ≡ true
      → filter test (load test grouped inherited p) ≡ load test grouped inherited p
  unfolding load prefilter
  load-IsFiltered p grouped inherited e =
      order_group_if-IsFiltered _ _ (alphabetic-IsFiltered _ grouped inherited e)

  -- On a page that is loaded with the alphabetic ordering and an empty filter box, whatever the reader does, the members shown
  -- are those that the controls select for the text that the filter box had when the members were
  -- filtered last: to filter again for it changes nothing. Every action filters for the text that the
  -- box then has, but for a click on a control that is in already or missing, the Tab key, and edits of
  -- the box without a key.
  pub Reach-IsFiltered :
      {p q : Page} {asked : Text} → has_in p.alpha ≡ true → Reach p q asked → IsFiltered asked q
  unfolding IsFiltered
  Reach-IsFiltered {p} e (loaded grouped inherited empty) = load-IsFiltered p grouped inherited e
  Reach-IsFiltered e (acts {q} {asked} a r) = handle-IsFiltered a q asked (Reach-IsFiltered e r)
