-- ===== src/Slab/Pop/First.antt =====
-- The first page of a class gives its first free object, in slab_alloc of src/mm/slab.c.
use eyn_os.Base.{
  ℕ, ◌<◌, ◌≡◌, ◌≢◌, refl, ap, sym, ◌∙◌, subst, true, false, List, [], ◌∷◌, contains, Distinct, ◌==◌,
  arith, Bool-cases, ==_iff, ==_refl, inl, inr, update, update_self, update_ne, is_cons,
}
use eyn_os.Slab.{Slabs, Header, returned, set_header}
use eyn_os.Slab.Class.{class_count}
use eyn_os.Slab.Memory.{Walk, Walk-frame}
use eyn_os.Slab.Page.{PageOk, free-valid}
use eyn_os.Slab.Pool.{View, Pool, Member, turn, Turned, Pool-Turned}
use eyn_os.Slab.Turn.{
  Member-turn, other_class, by_class, listed_by_class, Held-taken, Distinct-taken,
}
use eyn_os.Slab.Pop.{
  popped, pop_object_lem, PageOk-popped, unlink_full-more, unlinked, unlink_full-last, Popped,
}

module _ (s : Slabs) (v : View) (live : List ℕ) (c b : ℕ) (bs : List ℕ) (h : Pool s v live)
    (l : c < class_count) (first : v.pages c ≡ b ∷ bs) (slab : v.is_slab b ≡ true)
    (class : v.class b ≡ c) where
  free_ok : (xs : List ℕ) → v.free b ≡ xs → PageOk (s.header b) s.word b (v.class b) xs
  free_ok xs e = subst (λ l. PageOk (s.header b) s.word b (v.class b) l) e (h.page b slab)

  -- Objects are left: only the header changes.
  more-Turned :
      (x y : ℕ) (ys : List ℕ)
      → v.free b ≡ x ∷ y ∷ ys
      → Turned s v b (y ∷ ys) v.pages (set_header b (popped (s.header b) y) s)
  more-Turned x y ys e =
      let ok = free_ok (x ∷ y ∷ ys) e in
      let now = popped (s.header b) y in
      record {
        inited = refl;
        answers = refl;
        headers = λ d n. update_ne s.header b d now n;
        words = λ a. refl;
        page =
            subst (λ k. PageOk k s.word b (v.class b) (y ∷ ys)) (sym (update_self s.header b now))
              (PageOk-popped (s.header b) s.word b (v.class b) x y (s.header b).next (y ∷ ys)
                ok.list.1.0 ok);
        linked = λ d m.
            Walk-frame (λ a. (s.header a).next) (λ a. (update s.header b now a).next) (s.partial d)
              (v.pages d) (λ a i. same_next a) (h.linked d m);
        no_twice = h.no_twice;
        member = λ d a m i. Member-turn v b d a (y ∷ ys) v.pages (λ n. refl) (h.member d a m i);
        listed = λ d i j. h.listed d i (still d j);
      }
    where
      still : (d : ℕ) → is_cons (update v.free b (y ∷ ys) d) ≡ true → is_cons (v.free d) ≡ true
      still d j = elim (Bool-cases (b == d)) [
        | inl f ↦ subst (λ m. is_cons (v.free m) ≡ true) ((==_iff b d).0 f) (rw e refl)
        | inr f ↦ ground (arith, j)
      ]

      same_next : (a : ℕ) → (update s.header b (popped (s.header b) y) a).next ≡ (s.header a).next
      same_next a = elim (Bool-cases (b == a)) [
        | inl f ↦ simp f (ap (λ m. (s.header m).next) ((==_iff b a).0 f))
        | inr f ↦ simp f refl
      ]

  pop_more : (x y : ℕ) (ys : List ℕ) → v.free b ≡ x ∷ y ∷ ys → Popped s v live c b
  pop_more x y ys e =
      let ok = free_ok (x ∷ y ∷ ys) e in
      let valid = free-valid s b (v.class b) (x ∷ y ∷ ys) ok in
      let here = valid x (simp (==_refl x) refl) in
      let there = valid y (ground (arith, ==_refl y)) in
      let nonzero : (y == 0) ≡ false = ground (arith, there.0) in
      record {
        object = x;
        rest = y ∷ ys;
        pages = v.pages;
        after = set_header b (popped (s.header b) y) s;
        was_first = e;
        result =
            pop_object_lem s c b x y ok.list.0 ok.list.1.0 here.1 (simp (nonzero, there.1) refl)
            ∙ ap (λ t. (returned x, t)) (unlink_full-more s c b (popped (s.header b) y) nonzero);
        pool =
            Pool-Turned s (set_header b (popped (s.header b) y) s) v live (x ∷ live) b (y ∷ ys)
              v.pages h (more-Turned x y ys e) (Held-taken s v live b x (y ∷ ys) v.pages h slab e)
              (Distinct-taken s v live b x (y ∷ ys) h slab e);
      }

  -- The page is full now, and leaves its list.
  last_next : (k : Header) (a : ℕ) → b ≢ a → ((unlinked s c b k).header a).next ≡ (s.header a).next
  last_next k a n =
      ap (λ (g : Header). g.next)
        (update_ne (update s.header b k) b a (record k { next = 0 }) n ∙ update_ne s.header b a k n)

  not_later : (a : ℕ) → contains bs a ≡ true → b ≢ a
  not_later a i same =
      let once = (subst Distinct first (h.no_twice c l)).0 in
      let again = subst (λ m. contains bs m ≡ true) (sym same) i in absurd (ground (arith, again))

  was_listed : (a : ℕ) → contains bs a ≡ true → Member v c a
  was_listed a i =
      h.member c a l (subst (λ xs. contains xs a ≡ true) (sym first) (ground (arith, i)))

  last_links :
      (k : Header)
      → k.next ≡ (s.header b).next
      → (e : ℕ) → e < class_count
      → Walk
          (λ d. ((unlinked s c b k).header d).next)
          ((unlinked s c b k).partial e)
          (update v.pages c bs e)
  last_links k same =
      let after = λ (d : ℕ). ((unlinked s c b k).header d).next in
      by_class (λ e xs. e < class_count → Walk after (update s.partial c k.next e) xs) c bs v.pages
        (λ m.
          subst (λ p. Walk after p bs) (sym (update_self s.partial c k.next ∙ same))
            (Walk-frame (λ d. (s.header d).next) after (s.header b).next bs
              (λ a i. last_next k a (not_later a i))
              (subst (Walk (λ d. (s.header d).next) (s.partial c)) first (h.linked c l)).1))
        (λ e o m.
          subst (λ p. Walk after p (v.pages e)) (sym (unchanged e o))
            (Walk-frame (λ d. (s.header d).next) after (s.partial e) (v.pages e)
              (λ a i. last_next k a (other_class v b c e a class o (h.member e a m i)))
              (h.linked e m)))
    where
      unchanged : (e : ℕ) → (c == e) ≡ false → update s.partial c k.next e ≡ s.partial e
      unchanged e o = simp o refl

  last-Turned :
      (x : ℕ)
      → v.free b ≡ x ∷ []
      → Turned s v b [] (update v.pages c bs) (unlinked s c b (popped (s.header b) 0))
  last-Turned x e =
      let ok = free_ok (x ∷ []) e in
      let k = popped (s.header b) 0 in
      let now : Header = record k { next = 0 } in
      record {
        inited = refl;
        answers = refl;
        headers = λ d n. update_ne (update s.header b k) b d now n ∙ update_ne s.header b d k n;
        words = λ a. refl;
        page =
            subst (λ g. PageOk g s.word b (v.class b) [])
              (sym (update_self (update s.header b k) b now))
              (PageOk-popped (s.header b) s.word b (v.class b) x 0 0 [] ok.list.1 ok);
        linked = last_links k refl;
        no_twice =
            by_class (λ e xs. e < class_count → Distinct xs) c bs v.pages
              (λ m. (subst Distinct first (h.no_twice c l)).1) (λ e o m. h.no_twice e m);
        member = λ d a m i. last-Member d m a i;
        listed = λ d i j.
            listed_by_class v b c d [] bs later_listed (λ n. absurd (ground (arith, n))) class
              (h.listed d i) j;
      }
    where
      later_listed : (a : ℕ) → contains (v.pages c) a ≡ true → b ≢ a → contains bs a ≡ true
      later_listed a i n = ground (arith, subst (λ xs. contains xs a ≡ true) first i)

      last-Member :
          (d : ℕ)
          → d < class_count
          → (a : ℕ) → contains (update v.pages c bs d) a ≡ true
          → Member (turn v b [] (update v.pages c bs)) d a
      last-Member =
          by_class
            (λ d xs.
              d < class_count
              → (a : ℕ) → contains xs a ≡ true
              → Member (turn v b [] (update v.pages c bs)) d a)
            c bs v.pages
            (λ m a i.
              Member-turn v b c a [] (update v.pages c bs) (λ same. absurd (not_later a i same))
                (was_listed a i))
            (λ d o m a i.
              Member-turn v b d a [] (update v.pages c bs)
                (λ same. absurd (other_class v b c d a class o (h.member d a m i) same))
                (h.member d a m i))

  pop_last : (x : ℕ) → v.free b ≡ x ∷ [] → Popped s v live c b
  pop_last x e =
      let ok = free_ok (x ∷ []) e in
      let valid = free-valid s b (v.class b) (x ∷ []) ok in
      let here = valid x (simp (==_refl x) refl) in
      let k = popped (s.header b) 0 in
      record {
        object = x;
        rest = [];
        pages = update v.pages c bs;
        after = unlinked s c b k;
        was_first = e;
        result =
            pop_object_lem s c b x 0 ok.list.0 ok.list.1 here.1 refl
            ∙ ap (λ t. (returned x, t)) (unlink_full-last s c b k refl);
        pool =
            Pool-Turned s (unlinked s c b k) v live (x ∷ live) b [] (update v.pages c bs) h
              (last-Turned x e) (Held-taken s v live b x [] (update v.pages c bs) h slab e)
              (Distinct-taken s v live b x [] h slab e);
      }

  pop_any : (xs : List ℕ) → v.free b ≡ xs → is_cons xs ≡ true → Popped s v live c b
  pop_any [] e f = absurd (ground (arith, f))
  pop_any (x ∷ []) e f = pop_last x e
  pop_any (x ∷ y ∷ ys) e f = pop_more x y ys e

  pub pop_object-Popped : is_cons (v.free b) ≡ true → Popped s v live c b
  pop_object-Popped = pop_any (v.free b) refl
