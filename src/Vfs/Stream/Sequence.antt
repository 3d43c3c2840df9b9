-- ===== src/Vfs/Stream/Sequence.antt =====
-- Writes one after the other: what is stored and what the callback is passed.
use umka_os.Base.{
  ℕ, ◌+◌, ◌<◌, ◌≡◌, ◌≢◌, refl, sym, ◌∙◌, ap, none, some, List, [], ◌∷◌, ◌++◌, arith, length,
  length-append, append_assoc, append-nil, Res, ok, ◌>>=◌,
}
use umka_os.Vfs.{Ptr, Node, Vfs, put, IsTree}
use umka_os.Vfs.Change.{
  nodes-put_self, nodes-put_other, put-IsTree, put-Extends, Extends, Extends-refl, Extends-trans,
  IsKept,
}
use umka_os.Vfs.Stream.{Stream, Event, word, flush_hook, flush, write}
use umka_os.Vfs.Stream.Write.{grown, append-put, write-append, write-flush}

unfoldable pub write_each : Vfs → Stream → List (List ℕ) → Res (Vfs × Stream × List Event)
write_each v s [] = ok (v, s, [])
write_each v s (bytes ∷ chunks) = write v s bytes >>= λ (w, s', events).
    write_each w s' chunks >>= λ (w', s'', more). ok (w', s'', events ++ more)

unfoldable pub joined : List (List ℕ) → List ℕ
joined [] = []
joined (bytes ∷ chunks) = bytes ++ joined chunks

-- All that a callback is passed.
unfoldable pub passed : List Event → List ℕ
passed [] = []
passed ((h, bytes) ∷ events) = bytes ++ passed events

-- Every call is of the callback `h`.
abbrev pub AllTo : ℕ → List Event → Type 0
AllTo h [] = Unit
AllTo h ((to, bytes) ∷ events) = (to ≡ h) × AllTo h events

grown-IsKept : (n : Node) (bytes : List ℕ) → IsKept n (grown n bytes)
grown-IsKept n bytes = record {
  filename = refl;
  parent = refl;
  child = λ _. refl;
  sibling = λ _. refl;
}

grow-IsTree :
    (v : Vfs) (p : Ptr) (n : Node) (bytes : List ℕ)
    → v.nodes p ≡ some n
    → IsTree v
    → IsTree (put v p (grown n bytes))
grow-IsTree v p n bytes e t =
    put-IsTree v p n (grown n bytes) e refl t (t.child_link p n e) (t.sibling_link p n e)

-- The state after writes to the node that held `n`.
pub record Written (v : Vfs) (p : Ptr) (n : Node) (bytes : List ℕ) (w : Vfs) : Type 0 where
  pub node : Node
  pub holds : w.nodes p ≡ some node
  pub content : node.content ≡ n.content ++ bytes
  pub others : (q : Ptr) → q ≢ p → w.nodes q ≡ v.nodes q
  pub extends : Extends v w
  pub tree : IsTree v → IsTree w

Written-nil : (v : Vfs) (p : Ptr) (n : Node) → v.nodes p ≡ some n → Written v p n [] v
Written-nil v p n e = record {
  node = n;
  holds = e;
  content = sym (append-nil n.content);
  others = λ q h. refl;
  extends = Extends-refl v;
  tree = λ t. t;
}

Written-cons :
    (v : Vfs) (p : Ptr) (n : Node) (bytes rest : List ℕ) {w : Vfs}
    → v.nodes p ≡ some n
    → Written (put v p (grown n bytes)) p (grown n bytes) rest w
    → Written v p n (bytes ++ rest) w
Written-cons v p n bytes rest e r = record {
  node = r.node;
  holds = r.holds;
  content = r.content ∙ append_assoc n.content bytes rest;
  others = λ q h. r.others q h ∙ nodes-put_other v p (grown n bytes) q h;
  extends = Extends-trans (put-Extends v p n (grown n bytes) e (grown-IsKept n bytes)) r.extends;
  tree = λ t. r.tree (grow-IsTree v p n bytes e t);
}

-- Writes with no callback whose positions do not wrap add all the bytes in order at the end of the file, and change no other
-- node and no name or pointer of the tree.
pub write_each-Written :
    (v : Vfs) (s : Stream) (n : Node) (chunks : List (List ℕ))
    → v.nodes s.node ≡ some n
    → s.hook ≡ none
    → s.i + length (joined chunks) < word
    → (w : Vfs) × (s' : Stream) × (write_each v s chunks ≡ ok (w, s', []))
      × Written v s.node n (joined chunks) w
unfolding write_each joined
write_each-Written v s n [] holds quiet small = (v, s, refl, Written-nil v s.node n holds)
write_each-Written v s n (bytes ∷ chunks) holds quiet small =
    let s₁ : Stream = record s { i = s.i + length bytes } in
    let (w, s', e, r) =
      write_each-Written (put v s.node (grown n bytes)) s₁ (grown n bytes) chunks
        (nodes-put_self v s.node (grown n bytes)) quiet
        (omega (arith, length-append bytes (joined chunks))) in
    (
      w,
      s',
      rw
          (
            write-append v s n holds bytes quiet
                (omega (arith, length-append bytes (joined chunks))),
            e,
          )
          refl,
      Written-cons v s.node n bytes (joined chunks) holds r,
    )

write-nil :
    (v : Vfs) (s : Stream) (n : Node) (h : ℕ)
    → v.nodes s.node ≡ some n
    → s.hook ≡ some h
    → s.flushindex ≡ s.i
    → s.i < word
    → write v s [] ≡ ok (put v s.node (grown n []), record s { i = s.i + 0 }, [])
unfolding write flush flush_hook
write-nil v s n h holds hooked flushed small = ground (arith, append-put v s.node n [] holds)

-- Writes with a callback, from the end of the file, with nothing left to flush and positions that
-- do not wrap: only the callback of the stream is called, it is passed all the bytes, each once and in
-- order, and the file has them too.
pub write_each-passed :
    (v : Vfs) (s : Stream) (n : Node) (h : ℕ) (chunks : List (List ℕ))
    → v.nodes s.node ≡ some n
    → s.hook ≡ some h
    → s.i ≡ length n.content
    → s.flushindex ≡ s.i
    → s.i + length (joined chunks) < word
    → (w : Vfs) × (s' : Stream) × (events : List Event) × (write_each v s chunks
        ≡ ok (w, s', events))
      × AllTo h events
      × (passed events ≡ joined chunks)
      × Written v s.node n (joined chunks) w
unfolding write_each joined passed
write_each-passed v s n h [] holds hooked at_end flushed small =
    (v, s, [], refl, tt, refl, Written-nil v s.node n holds)
write_each-passed v s n h ([] ∷ chunks) holds hooked at_end flushed small =
    let s₁ : Stream = record s { i = s.i + 0 } in
    let (w, s', events, e, to, p, r) =
      write_each-passed (put v s.node (grown n [])) s₁ (grown n []) h chunks
        (nodes-put_self v s.node (grown n [])) hooked (omega (arith, length-append n.content []))
        (omega arith) (omega arith) in
    (
      w,
      s',
      events,
      rw (write-nil v s n h holds hooked flushed (omega arith), e) refl,
      to,
      p,
      Written-cons v s.node n [] (joined chunks) holds r,
    )
write_each-passed v s n h ((b ∷ bytes) ∷ chunks) holds hooked at_end flushed small =
    let chunk = b ∷ bytes in
    let long = length-append chunk (joined chunks) in
    let s₁ : Stream = record s { i = s.i + length chunk; flushindex = s.i + length chunk } in
    let (w, s', events, e, to, p, r) =
      write_each-passed (put v s.node (grown n chunk)) s₁ (grown n chunk) h chunks
        (nodes-put_self v s.node (grown n chunk)) hooked
        (omega (arith, length-append n.content chunk)) refl (omega arith) in
    (
      w,
      s',
      (h, chunk) ∷ events,
      rw (write-flush v s n holds chunk h hooked at_end flushed (omega arith) (λ z. cc), e) refl,
      (refl, to),
      ap (λ l. chunk ++ l) p,
      Written-cons v s.node n chunk (joined chunks) holds r,
    )
