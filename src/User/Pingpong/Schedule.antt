-- ===== src/User/Pingpong/Schedule.antt =====
-- Every state of lab1/pingpong.c that is reached, by how many calls each process has made.
use my_os_proj.Base.{
  ℕ, zero, suc, ◌+◌, ◌-◌, ◌≤◌, ◌<◌, ◌≡◌, sym, arith, Bool, leb, ◌&&◌, none, some, List, [], ◌∷◌,
  ◌++◌, length, if◌then◌else◌,
}
use my_os_proj.User.Pingpong.{
  Pipes, Who, parent, child, Call, ping, pong, child_calls, parent_calls, Buffer, fill, World, step,
}

pub record View : Type 0 where
  pub bytes : List ℕ
  pub readers : ℕ
  pub writers : ℕ

-- The documented behaviour of a pipe: bytes come out in the order in which they went in; a reader
-- of an empty pipe sleeps as long as a write end is open; a writer does not sleep where the pipe
-- is empty and has room for what it writes.
pub record IsPipe {Q : Type 0} (pipes : Pipes Q) (view : Q → View) (room : ℕ) : Type 0 where
  pub new : view (pipes.inherit pipes.opened) ≡ record { bytes = []; readers = 2; writers = 2 }
  pub closes_read :
      (q : Q)
      → 0 < (view q).readers
      → view (pipes.close_read q) ≡ record (view q) { readers = (view q).readers - 1 }
  pub closes_write :
      (q : Q)
      → 0 < (view q).writers
      → view (pipes.close_write q) ≡ record (view q) { writers = (view q).writers - 1 }
  pub writes :
      (q : Q) (xs : List ℕ)
      → 0 < (view q).readers
      → (view q).bytes ≡ []
      → length xs ≤ room
      → (r : Q) × (pipes.write xs q ≡ some r) × (view r ≡ record (view q) { bytes = xs })
  pub reads :
      (q : Q) (n x : ℕ) (xs : List ℕ)
      → (view q).bytes ≡ x ∷ xs
      → length (x ∷ xs) ≤ n
      → (r : Q) × (pipes.read n q ≡ some (x ∷ xs, r)) × (view r ≡ record (view q) { bytes = [] })
  pub waits : (q : Q) (n : ℕ) → (view q).bytes ≡ [] → 0 < (view q).writers → pipes.read n q ≡ none

abbrev pub drop : ℕ → List Call → List Call
drop zero cs = cs
drop (suc n) [] = []
drop (suc n) (c ∷ cs) = drop n cs

abbrev one_if : Bool → ℕ
one_if b = if b then 1 else 0

-- The pipes, the buffers and the output after `i` calls of the parent and `j` of the child.
abbrev pub p_c_view : (i j : ℕ) → View
p_c_view i j = record {
  bytes = if leb 3 i && leb j 2 then ping else [];
  readers = one_if (leb i 0) + one_if (leb j 3);
  writers = one_if (leb j 0) + one_if (leb i 3);
}

abbrev pub c_p_view : (i j : ℕ) → View
c_p_view i j = record {
  bytes = if leb 6 j && leb i 4 then pong else [];
  readers = one_if (leb j 1) + one_if (leb i 5);
  writers = one_if (leb i 1) + one_if (leb j 6);
}

module _ {Q : Type 0} (junk : Buffer) where
  abbrev pub at : (i j : ℕ) → Q → Q → World Q
  at i j q r = record {
    parent = record { calls = drop i parent_calls; buf = if leb 5 i then fill pong junk else junk };
    child = record { calls = drop j child_calls; buf = if leb 3 j then fill ping junk else junk };
    p_c = q;
    c_p = r;
    printed =
        (if leb 5 j then (child, fill ping junk) ∷ [] else [])
        ++ (if leb 7 i then (parent, fill pong junk) ∷ [] else []);
  }

-- Where the two processes can be.
pub record Meet (i j : ℕ) : Type 0 where
  pub child_after : 3 ≤ j → 3 ≤ i
  pub parent_after : 5 ≤ i → 6 ≤ j
  pub parent_ends : i ≤ 7
  pub child_ends : j ≤ 7

pub record Fits {Q : Type 0} (view : Q → View) (i j : ℕ) (q r : Q) : Type 0 where
  pub meet : Meet i j
  pub p_c_is : view q ≡ p_c_view i j
  pub c_p_is : view r ≡ c_p_view i j

pub parent_moves : (i j : ℕ) → Meet i j → i < 7 → (i ≡ 4 → 6 ≤ j) → Meet (suc i) j
parent_moves i j m lt free = record {
  child_after = λ h. omega (arith, m.child_after h);
  parent_after = λ h. grind (arith, m.parent_after, free);
  parent_ends = omega arith;
  child_ends = m.child_ends;
}

pub child_moves : (i j : ℕ) → Meet i j → j < 7 → (j ≡ 2 → 3 ≤ i) → Meet i (suc j)
child_moves i j m lt free = record {
  child_after = λ h. grind (arith, m.child_after, free);
  parent_after = λ h. omega (arith, m.parent_after h);
  parent_ends = m.parent_ends;
  child_ends = omega arith;
}

pub View-eq :
    {xs ys : List ℕ} {a b c d : ℕ}
    → xs ≡ ys
    → a ≡ b
    → c ≡ d
    → ◌≡◌ {A = View}
        (record { bytes = xs; readers = a; writers = c })
        (record { bytes = ys; readers = b; writers = d })
View-eq e f g = cc

module _ {Q : Type 0} (pipes : Pipes Q) (view : Q → View) (room : ℕ) (laws : IsPipe pipes view room)
    (enough : 4 ≤ room) (junk : Buffer) where
  open laws use {closes_read, closes_write}

  -- A process that is not blocked makes its next call.
  abbrev pub Goes : Who → (i j i' j' : ℕ) → Q → Q → Type 0
  Goes who i j i' j' q r =
      (q' : Q) × (r' : Q) × (step pipes who (at junk i j q r) ≡ some (at junk i' j' q' r'))
      × Fits view i' j' q' r'

  pub closed_read :
      (q : Q) (v : View)
      → view q ≡ v
      → 0 < v.readers
      → view (pipes.close_read q) ≡ record v { readers = v.readers - 1 }
  closed_read q v e h = rw (sym e) (closes_read q (rw e h))

  pub closed_write :
      (q : Q) (v : View)
      → view q ≡ v
      → 0 < v.writers
      → view (pipes.close_write q) ≡ record v { writers = v.writers - 1 }
  closed_write q v e h = rw (sym e) (closes_write q (rw e h))
