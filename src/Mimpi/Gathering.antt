-- ===== src/Mimpi/Gathering.antt =====
-- `MIMPI_Reduce` of mimpi.c at the root, when what its children send has come.
use mimuw.Prelude.{ℕ, zero, suc, ◌<◌, ◌≡◌, ◌≢◌, refl, Bool, true, false, ◌∙◌, ap, sym, arith}
use mimuw.Prelude.{Option, none, some, List, [], ◌∷◌, ◌++◌, ◌==◌, length, take, get_elem?}
use mimuw.Prelude.Int.{pos}
use mimuw.Mimpi.Process.{Retcode, success, Message, Process, M, reduce_tag}
use mimuw.Mimpi.Recv.{fits, recv}
use mimuw.Mimpi.Search.{NoneFits}
use mimuw.Mimpi.Outcome.{recv-takes, Taken}
use mimuw.Mimpi.Ranks.{relative_rank, left_child, right_child}
use mimuw.Mimpi.Ranks.Laws.{left-place, right-place}
use mimuw.Mimpi.Collective.{
  Op, combine, fold_in, received, Reduced, reduce_child, reduce_up, reduce,
}
use mimuw.Mimpi.Summary.{Summary}
use mimuw.Mimpi.Reduction.{Contributors, nobody, process, with_child, Contribute, column}
use mimuw.Mimpi.Reduction.{length-with_child, reduction-Summary}

-- No barrier message of the rank c is pending, and the first message of its list that fits the
-- request of `MIMPI_Reduce` brings the bytes.
pub record Ready (p : Process) (count c : ℕ) (bytes : List ℕ) : Type 0 where
  pub before : List Message
  pub behind : List Message
  pub message : Message
  pub quiet : p.sended_barrier c ≡ false
  pub list : p.buffers c ≡ before ++ message ∷ behind
  pub none_before : NoneFits count reduce_tag before
  pub hit : fits count reduce_tag message ≡ true
  pub payload : message.payload ≡ bytes

-- What the children of the root send: nothing where there is no child, and otherwise the buffer of
-- the child, in which what its own children send is combined.
abbrev pub Sends : Process → Op → ℕ → Option ℕ → Contributors → Type 0
Sends p op count none nobody = Unit {0}
Sends p op count none (process own left right) = true ≡ false
Sends p op count (some c) nobody = true ≡ false
Sends p op count (some c) (process own left right) =
    Ready p count c (with_child op (with_child op own left) right)

take_all : (n : ℕ) (xs : List ℕ) → length xs ≡ n → take n xs ≡ xs
take_all zero [] h = refl
take_all zero (x ∷ xs) h = absurd (omega arith)
take_all (suc n) [] h = refl
take_all (suc n) (x ∷ xs) h = ap (λ t. x ∷ t) (take_all n xs (omega arith))

Taken-Ready :
    (p p' : Process) (count n c : ℕ) (ms : List Message) (bytes : List ℕ)
    → Taken p n ms p'
    → c ≢ n
    → Ready p count c bytes
    → Ready p' count c bytes
Taken-Ready p p' count n c ms bytes t ne r = record {
  before = r.before;
  behind = r.behind;
  message = r.message;
  quiet = ap (λ (f : ℕ → Bool). f c) t.barrier ∙ r.quiet;
  list = t.others c ne ∙ r.list;
  none_before = r.none_before;
  hit = r.hit;
  payload = r.payload;
}

reduce_child-some :
    (op : Op) (count c : ℕ) (b rb bytes : List ℕ) (k : List ℕ → List ℕ → M Reduced) (p p' : Process)
    → recv count (pos c) reduce_tag p ≡ some ((success, some bytes), p')
    → reduce_child op count (some c) b rb k p ≡ k (combine op b bytes) bytes p'
unfolding reduce_child fold_in
reduce_child-some op count c b rb bytes k p p' run =
    ap
      (λ (o : Option ((Retcode × Option (List ℕ)) × Process)). elim o [
        | none ↦ none
        | some (r, q) ↦ fold_in op r.0 b (received rb r.1) k q
      ])
      run

-- What the next child sends is still there, and the process is the same.
record Kept (p p' : Process) (child : Option ℕ) : Type 0 where
  ready :
      (count c : ℕ) (bytes : List ℕ)
      → ((n : ℕ) → child ≡ some n → c ≢ n)
      → Ready p count c bytes
      → Ready p' count c bytes
  rank : p'.my_rank ≡ p.my_rank
  size : p'.world_size ≡ p.world_size

-- A child is a rank of the world, and is not this process.
abbrev IsChild : Process → Option ℕ → Type 0
IsChild p child = (c : ℕ) → child ≡ some c → (c < p.world_size) × (p.my_rank ≢ c)

reduce_child-Sends :
    (op : Op) (count : ℕ) (child : Option ℕ) (t : Contributors) (b rb : List ℕ) (p : Process)
    → IsChild p child
    → Contribute count t
    → Sends p op count child t
    → (p' : Process) × (rb' : List ℕ) × ((k : List ℕ → List ℕ → M Reduced)
        → reduce_child op count child b rb k p ≡ k (with_child op b t) rb' p')
      × Kept p p' child
unfolding reduce_child with_child
reduce_child-Sends op count none nobody b rb p is h s =
    (p, rb, λ k. refl, record { ready = λ _ _ _ _ r. r; rank = refl; size = refl })
reduce_child-Sends op count none (process own l r) b rb p is h s = absurd (ground arith)
reduce_child-Sends op count (some c) nobody b rb p is h s = absurd (ground arith)
reduce_child-Sends op count (some c) (process own l r) b rb p is (n, small, hl, hr) s =
    let (below, other) = is c refl in
    let sum = with_child op (with_child op own l) r in
    let full : take count s.message.payload ≡ sum =
      ap (take count) s.payload
      ∙ take_all count sum
          (length-with_child op (with_child op own l) r ∙ length-with_child op own l ∙ n) in
    let (p', run, taken) =
      recv-takes p c count reduce_tag other below s.before s.behind s.message s.quiet s.list
        s.none_before s.hit in
    (
      p',
      sum,
      λ k.
          reduce_child-some op count c b rb sum k p p'
            (run ∙ ap (λ t. some ((success, some t), p')) full),
      record {
        ready = λ m d bytes ne. Taken-Ready p p' m c d _ bytes taken (ne c refl);
        rank = taken.rank;
        size = taken.size;
      },
    )

Sends-Kept :
    (op : Op) (count : ℕ) (child next : Option ℕ) (t : Contributors) (p p' : Process)
    → Kept p p' child
    → ((n c : ℕ) → child ≡ some n → next ≡ some c → c ≢ n)
    → Sends p op count next t
    → Sends p' op count next t
Sends-Kept op count child none nobody p p' h ne s = tt
Sends-Kept op count child none (process own l r) p p' h ne s = s
Sends-Kept op count child (some c) nobody p p' h ne s = s
Sends-Kept op count child (some c) (process own l r) p p' h ne s =
    h.ready count c (with_child op (with_child op own l) r) (λ n e. ne n c e refl) s

reduce_up-root :
    (size root count : ℕ) (b rb : List ℕ) (p : Process)
    → reduce_up size root root count b rb p ≡ some ((success, some b), p)
unfolding reduce_up
reduce_up-root size root count b rb p =
    let same : (root == root) ≡ true = ground arith in rw same refl

-- At the root of a world with its rank, with count bytes of its own, and children whose messages,
-- each with count bytes that the child has combined in the same way from its own and those of the
-- processes below it, have come and are the first to fit, with no barrier message of them pending:
-- MIMPI_Reduce returns success, and each of the count bytes that it copies to recv_data is the sum
-- or the product modulo 256 of the bytes that all these processes contribute at its place, or the
-- greatest or the least of them.
pub reduce-Summary :
    (op : Op) (count : ℕ) (junk d : List ℕ) (left right : Contributors) (p : Process)
    → p.my_rank < p.world_size
    → Contribute count (process (take count d) left right)
    → Sends p op count (left_child p.world_size p.my_rank p.my_rank) left
    → Sends p op count (right_child p.world_size p.my_rank p.my_rank) right
    → (bytes : List ℕ) × (p' : Process) × (reduce junk d count op p.my_rank p
        ≡ some ((success, some bytes), p'))
      × ((i : ℕ)
          → i < count
          → (x : ℕ) × (get_elem? bytes i ≡ some x)
            × Summary op (column i (process (take count d) left right)) x)
unfolding reduce
reduce-Summary op count junk d left right p rank (n, small, hl, hr) sl sr =
    let size = p.world_size in
    let q = p.my_rank in
    let at_left = left-place size q rank q in
    let at_right = right-place size q rank q in
    let rel = relative_rank size q in
    let (p1, rb1, run1, kept) =
      reduce_child-Sends op count (left_child size q q) left (take count d) junk p
        (λ c e. ((at_left c e).0, λ same. omega (arith, ap rel same, (at_left c e).1))) hl sl in
    let apart : (m c : ℕ) → left_child size q q ≡ some m → right_child size q q ≡ some c → c ≢ m =
      λ m c e f same. omega (arith, ap rel same, (at_left m e).1, (at_right c f).1) in
    let (p2, rb2, run2, kept2) =
      reduce_child-Sends op count (right_child size q q) right (with_child op (take count d) left)
        rb1 p1
        (λ c e. (
          omega (arith, (at_right c e).0, kept.size),
          λ same. omega (arith, ap rel (sym kept.rank ∙ same), (at_right c e).1),
        ))
        hr
        (Sends-Kept op count (left_child size q q) (right_child size q q) right p p1 kept apart
          sr) in
    (
      with_child op (with_child op (take count d) left) right,
      p2,
      run1 _ ∙ run2 _ ∙ reduce_up-root size q count _ rb2 p2,
      λ i lt. reduction-Summary op count i (take count d) left right lt (n, small, hl, hr),
    )
