-- ===== src/Sched/Queues/Frame.antt =====
-- The queues of src/cpu/sched.c under changes that leave the links alone.
use eyn_os.Base.{ℕ, ◌≡◌, ◌∙◌, sym, subst, fun_ext, List}
use eyn_os.Sched.{Sched}
use eyn_os.Sched.Queues.{Linked, Complete, Placed}
use eyn_os.Sched.Queues.Links.{Chain-frame}

-- `t` differs from `s` in nothing that links the queues.
pub record SameLinks (s t : Sched) : Type 0 where
  pub next : (j : ℕ) → (t.work j).next ≡ (s.work j).next
  pub in_queue : (j : ℕ) → (t.work j).in_queue ≡ (s.work j).in_queue
  pub runq : t.runq ≡ s.runq
  pub bitmap : t.ready_bitmap ≡ s.ready_bitmap

module _ (s t : Sched) (qs : ℕ → List ℕ) (h : SameLinks s t) where
  pub Linked-frame : Linked s qs → Linked t qs
  Linked-frame l = record {
    chain = λ p hp.
        rw h.runq
          (Chain-frame s.work t.work (s.runq p).head (qs p) (λ j m. h.next j) (l.chain p hp));
    tail = λ p hp. rw h.runq (l.tail p hp);
    distinct = l.distinct;
    inside = l.inside;
    queued = λ p i m. h.in_queue i ∙ l.queued p i m;
    apart = l.apart;
    ready = λ p hp. rw h.bitmap (l.ready p hp);
    word = rw h.bitmap l.word;
  }

  pub Complete-frame : Complete s qs → Complete t qs
  Complete-frame c i hi e = c i hi (sym (h.in_queue i) ∙ e)

-- Lists that agree at every priority serve alike.
pub Linked-ext :
    (s : Sched) (qs rs : ℕ → List ℕ) → ((p : ℕ) → qs p ≡ rs p) → Linked s qs → Linked s rs
Linked-ext s qs rs h l = subst (Linked s) (fun_ext h) l

pub Placed-ext : (i : ℕ) (qs rs : ℕ → List ℕ) → ((p : ℕ) → qs p ≡ rs p) → Placed i qs → Placed i rs
Placed-ext i qs rs h p = subst (Placed i) (fun_ext h) p
