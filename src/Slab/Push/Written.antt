-- ===== src/Slab/Push/Written.antt =====
-- What slab_free of src/mm/slab.c has written when it is done with the words of a held object.
use eyn_os.Base.{
  ℕ, ◌<◌, ◌≡◌, ◌≢◌, refl, sym, ◌∙◌, subst, true, false, List, ◌∷◌, contains, ◌==◌, ltb, leb, arith,
  inl, inr, lt→ltb, update_self, update_ne,
}
use eyn_os.Slab.{Slabs, returned, page_base, poison, push_object, slab_free, freelist_contains}
use eyn_os.Slab.Class.{class_count}
use eyn_os.Slab.Objects.{class_size, object_end, owns-object, obj_ptr_is_valid-object}
use eyn_os.Slab.Memory.{Outside, poison-Outside}
use eyn_os.Slab.Page.{PageOk, freelist_contains-free, length-capacity}
use eyn_os.Slab.Pool.{View, Pool, Held, turn, Pool-write, class_size-pos}
use eyn_os.Slab.Turn.{Held-turn}
use eyn_os.Slab.Without.{without, contains-without}
use eyn_os.Slab.Push.{linked_words, pushed, objects_with, PageOk-pushed}

module _ (s : Slabs) (v : View) (live : List ℕ) (p : ℕ) (h : Pool s v live)
    (i : contains live p ≡ true) where
  abbrev b : ℕ
  b = page_base p

  abbrev c : ℕ
  c = v.class b

  pub page_ok : PageOk (s.header b) s.word b c (v.free b)
  page_ok = h.page b (h.held p i).slab

  nonzero : 0 < p
  nonzero =
      let o = (h.held p i).object in
      let e = object_end b (class_size c) o.0 p o.1 in omega (arith, e.0)

  pub slab_free-push : slab_free p s ≡ (returned 1, push_object b p s)
  unfolding slab_free
  slab_free-push =
      let at = h.held p i in
      let ok = page_ok in
      let there : (p == 0) ≡ false = ground (arith, nonzero) in
      let owned = owns-object s b c at.object.0 p ok.addr ok.header at.object.1 in
      let class : leb class_count (s.header b).class_index ≡ false =
        ground (arith, ok.header.class_lt, ok.header.class) in
      let valid = obj_ptr_is_valid-object s b c at.object.0 p ok.addr ok.header at.object.1 in
      let absent : freelist_contains s b p ≡ false =
        freelist_contains-free s b c p (v.free b) ok nonzero ∙ at.not_free in
      simp (there, owned, class, valid, absent) refl

  -- The words change inside the object only.
  pub written : Pool (record s { word = linked_words s b p }) v live
  written =
      let size = page_ok.header.size in
      let elsewhere = λ (a : ℕ) (out : Outside p (class_size c) a).
        let other : p ≢ a = not_start a out in
        update_ne (poison p (s.header b).obj_size s.word) p a (s.header b).free_list other
        ∙ poison-Outside p (s.header b).obj_size a s.word
            (subst (λ n. Outside p n a) (sym size) out) in
      Pool-write s v live p (linked_words s b p) h i elsewhere
    where
      not_start : (a : ℕ) → Outside p (class_size c) a → p ≢ a
      not_start a (inl f) e = omega arith
      not_start a (inr f) e = let l = class_size-pos c page_ok.header.class_lt in omega arith

  -- The page had room for one more free object.
  pub room : ltb (s.header b).free_objs (s.header b).total_objs ≡ true
  room =
      let ok = page_ok in
      let at = h.held p i in
      let fits =
        length-capacity b c (p ∷ v.free b) (at.not_free, ok.distinct)
          (objects_with b (class_size c) p (v.free b) at.object ok.objects) in
      lt→ltb (s.header b).free_objs (s.header b).total_objs
        (omega (arith, fits, ok.count, ok.header.total))

  pub pushed_ok :
      (next : ℕ)
      → PageOk
          (record (pushed (s.header b) p) { next = next })
          (linked_words s b p)
          b
          c
          (p ∷ v.free b)
  pushed_ok next =
      let at = h.held p i in
      PageOk-pushed (s.header b) (linked_words s b p) b c p next (v.free b)
        (update_self (poison p (s.header b).obj_size s.word) p (s.header b).free_list) at.not_free
        at.object (written.page b at.slab)

  pub still-Held :
      (pages : ℕ → List ℕ) (q : ℕ)
      → contains (without p live) q ≡ true
      → Held (turn v b (p ∷ v.free b) pages) q
  still-Held pages q j =
      let both = contains-without p q live in
      let other : (p == q) ≡ false = ground arith in
      Held-turn v b q (p ∷ v.free b) pages (λ absent. simp (other, absent) refl)
        (h.held q (ground arith))
