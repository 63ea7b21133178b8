-- ===== src/Slab/Push/Free.antt =====
-- slab_free of src/mm/slab.c, for an object that a caller holds.
use eyn_os.Base.{
  ℕ, ◌<◌, ◌≡◌, ◌≢◌, refl, ap, sym, ◌∙◌, subst, true, false, List, [], ◌∷◌, contains, Distinct,
  length, ◌==◌, arith, Bool-cases, ==_iff, ==_refl, inl, inr, update, update_self, update_ne,
  is_cons,
}
use eyn_os.Slab.{Slabs, Header, returned, page_base}
use eyn_os.Slab.Class.{class_count}
use eyn_os.Slab.Memory.{Walk, Walk-frame}
use eyn_os.Slab.Page.{PageOk}
use eyn_os.Slab.Pool.{View, Pool, Member, turn, Turned, Pool-Turned}
use eyn_os.Slab.Turn.{Member-turn, by_class, listed_by_class, unlisted}
use eyn_os.Slab.Without.{without, Distinct-without}
use eyn_os.Slab.Push.{
  linked_words, pushed, pushed_state, relinked, push_object-more, push_object-first, Pushed,
}
use eyn_os.Slab.Push.Written.{page_ok, slab_free-push, written, room, pushed_ok, still-Held}

module _ (s : Slabs) (v : View) (live : List ℕ) (p : ℕ) (h : Pool s v live)
    (i : contains live p ≡ true) where
  abbrev b : ℕ
  b = page_base p

  abbrev c : ℕ
  c = v.class b

  -- The page had free objects before: only its header changes.
  more-Turned :
      is_cons (v.free b) ≡ true
      → Turned
          (record s { word = linked_words s b p })
          v
          b
          (p ∷ v.free b)
          v.pages
          (pushed_state s b p)
  more-Turned some_free =
      let now = pushed (s.header b) p in
      record {
        inited = refl;
        answers = refl;
        headers = λ d n. update_ne s.header b d now n;
        words = λ a. refl;
        page =
            subst (λ k. PageOk k (linked_words s b p) b c (p ∷ v.free b))
              (sym (update_self s.header b now)) ((pushed_ok s v live p h i) (s.header b).next);
        linked = λ d m.
            Walk-frame (λ a. (s.header a).next) (λ a. (update s.header b now a).next) (s.partial d)
              (v.pages d) (λ a j. same_next a) (h.linked d m);
        no_twice = h.no_twice;
        member =
            λ d a m j. Member-turn v b d a (p ∷ v.free b) v.pages (λ n. refl) (h.member d a m j);
        listed = λ d j k. elim (Bool-cases (b == d)) [
          | inl f ↦ again d ((==_iff b d).0 f)
          | inr f ↦ h.listed d j (ground (arith, k))
        ];
      }
    where
      again : (d : ℕ) → b ≡ d → contains (v.pages (v.class d)) d ≡ true
      again d same =
          subst (λ m. contains (v.pages (v.class m)) m ≡ true) same
            (h.listed b (h.held p i).slab some_free)

      same_next : (a : ℕ) → (update s.header b (pushed (s.header b) p) a).next ≡ (s.header a).next
      same_next a = elim (Bool-cases (b == a)) [
        | inl f ↦ simp f (ap (λ m. (s.header m).next) ((==_iff b a).0 f))
        | inr f ↦ simp f refl
      ]

  abbrev first_pages : ℕ → List ℕ
  first_pages = update v.pages c (b ∷ v.pages c)

  -- The page was full, and is listed again.
  module _ (full : v.free b ≡ []) where
    not_listed : (d a : ℕ) → d < class_count → contains (v.pages d) a ≡ true → b ≢ a
    not_listed d a m j same =
        let absent = unlisted v b d (v.pages d) full (λ e. h.member d e m) in
        let again = subst (λ n. contains (v.pages d) n ≡ true) (sym same) j in
        absurd (ground (arith, absent))

    first_next : (a : ℕ) → b ≢ a → ((relinked s c b p).header a).next ≡ (s.header a).next
    first_next a n =
        let k = pushed (s.header b) p in
        ap (λ (g : Header). g.next)
          (update_ne (update s.header b k) b a (record k { next = s.partial c }) n
            ∙ update_ne s.header b a k n)

    first_links :
        (e : ℕ)
        → e < class_count
        → Walk
            (λ d. ((relinked s c b p).header d).next)
            ((relinked s c b p).partial e)
            (first_pages e)
    first_links =
        let after = λ (d : ℕ). ((relinked s c b p).header d).next in
        by_class (λ e xs. e < class_count → Walk after (update s.partial c b e) xs) c
          (b ∷ v.pages c) v.pages
          (λ m. (
            update_self s.partial c b,
            subst (λ q. Walk after q (v.pages c)) (sym (simp (==_refl b) refl))
                (Walk-frame (λ d. (s.header d).next) after (s.partial c) (v.pages c)
                  (λ a j. first_next a (not_listed c a m j)) (h.linked c m)),
          ))
          (λ e o m.
            subst (λ q. Walk after q (v.pages e)) (sym (unchanged e o))
              (Walk-frame (λ d. (s.header d).next) after (s.partial e) (v.pages e)
                (λ a j. first_next a (not_listed e a m j)) (h.linked e m)))
      where
        unchanged : (e : ℕ) → (c == e) ≡ false → update s.partial c b e ≡ s.partial e
        unchanged e o = simp o refl

    first-Member :
        (d : ℕ)
        → d < class_count
        → (a : ℕ) → contains (first_pages d) a ≡ true
        → Member (turn v b (p ∷ v.free b) first_pages) d a
    first-Member =
        by_class
          (λ d xs.
            d < class_count
            → (a : ℕ) → contains xs a ≡ true
            → Member (turn v b (p ∷ v.free b) first_pages) d a)
          c (b ∷ v.pages c) v.pages
          (λ m a j. elim (Bool-cases (b == a)) [
            | inl f ↦
                subst (Member (turn v b (p ∷ v.free b) first_pages) c) ((==_iff b a).0 f) itself
            | inr f ↦ still c a m (ground (arith, j))
          ])
          (λ d o m a j. still d a m j)
      where
        itself : Member (turn v b (p ∷ v.free b) first_pages) c b
        itself = record { slab = (h.held p i).slab; class = refl; has_free = simp (==_refl b) refl }

        still :
            (d a : ℕ)
            → d < class_count
            → contains (v.pages d) a ≡ true
            → Member (turn v b (p ∷ v.free b) first_pages) d a
        still d a m j =
            Member-turn v b d a (p ∷ v.free b) first_pages (λ n. refl) (h.member d a m j)

    first-Turned :
        Turned
          (record s { word = linked_words s b p })
          v
          b
          (p ∷ v.free b)
          first_pages
          (relinked s c b p)
    first-Turned =
        let k = pushed (s.header b) p in
        let now : Header = record k { next = s.partial c } in
        record {
          inited = refl;
          answers = refl;
          headers = λ d n. update_ne (update s.header b k) b d now n ∙ update_ne s.header b d k n;
          words = λ a. refl;
          page =
              subst (λ g. PageOk g (linked_words s b p) b c (p ∷ v.free b))
                (sym (update_self (update s.header b k) b now))
                ((pushed_ok s v live p h i) (s.partial c));
          linked = first_links;
          no_twice =
              by_class (λ e xs. e < class_count → Distinct xs) c (b ∷ v.pages c) v.pages
                (λ m. (unlisted v b c (v.pages c) full (λ e. h.member c e m), h.no_twice c m))
                (λ e o m. h.no_twice e m);
          member = λ d a m j. first-Member d m a j;
          listed = λ d j k.
              listed_by_class v b c d (p ∷ v.free b) (b ∷ v.pages c) (λ a o n. ground (arith, o))
                (λ n. simp (==_refl b) refl) refl (h.listed d j) k;
        }

  push_by : (xs : List ℕ) → v.free b ≡ xs → Pushed s v live p
  push_by [] e =
      let none : ((s.header b).free_objs == 0) ≡ true =
        simp ((page_ok s v live p h i).count ∙ ap (λ (l : List ℕ). length l) e) refl in
      record {
        after = relinked s c b p;
        pages = first_pages;
        result =
            (slab_free-push s v live p h i)
            ∙ ap (λ t. (returned 1, t))
                (push_object-first s c b p (page_ok s v live p h i).header.class
                  (room s v live p h i) none);
        pool =
            Pool-Turned (record s { word = linked_words s b p }) (relinked s c b p) v live
              (without p live) b (p ∷ v.free b) first_pages (written s v live p h i)
              (first-Turned e) ((still-Held s v live p h i) first_pages)
              (Distinct-without p live h.live_once);
      }
  push_by (x ∷ xs) e =
      let some_free : ((s.header b).free_objs == 0) ≡ false =
        simp ((page_ok s v live p h i).count ∙ ap (λ (l : List ℕ). length l) e) (ground arith) in
      record {
        after = pushed_state s b p;
        pages = v.pages;
        result =
            (slab_free-push s v live p h i)
            ∙ ap (λ t. (returned 1, t)) (push_object-more s b p (room s v live p h i) some_free);
        pool =
            Pool-Turned (record s { word = linked_words s b p }) (pushed_state s b p) v live
              (without p live) b (p ∷ v.free b) v.pages (written s v live p h i)
              (more-Turned (rw e refl)) ((still-Held s v live p h i) v.pages)
              (Distinct-without p live h.live_once);
      }

  pub slab_free-Pushed : Pushed s v live p
  slab_free-Pushed = push_by (v.free b) refl
