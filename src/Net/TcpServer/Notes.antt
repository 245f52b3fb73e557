-- ===== src/Net/TcpServer/Notes.antt =====
-- The notes of a server counted by their kind, and what one acceptance or disconnection adds.
use cascade.Base.{
  ℕ, ◌+◌, ◌≡◌, refl, ap, sym, ◌∙◌, ◌≢◌, List, [], ◌∷◌, ◌++◌, Option, none, some, arith, ◌==◌,
  ==_refl, ==_ne, if◌then◌else◌,
}
use cascade.Base.Dict.{find, insert, erase, find-insert, find-erase}
use native.Mathlib.Decide.{ℕ_discrete}
use cascade.Net.TcpServer.{
  Note, loop_add, loop_remove, close, on_connect, on_message, on_disconnect, written, TcpServer,
  new_server, drop_connection, accept_one,
}

tally : (Note → ℕ) → List Note → ℕ
tally f [] = 0
tally f (n ∷ ns) = f n + tally f ns

tally-append : (f : Note → ℕ) (xs ys : List Note) → tally f (xs ++ ys) ≡ tally f xs + tally f ys
unfolding tally
tally-append f [] ys = omega arith
tally-append f (x ∷ xs) ys = omega (arith, tally-append f xs ys)

abbrev hit : ℕ → ℕ → ℕ
hit id fd = if id == fd then 1 else 0

-- The kinds of notes about a descriptor.
adds : ℕ → Note → ℕ
adds fd (loop_add id) = hit id fd
adds fd other = 0

removes : ℕ → Note → ℕ
removes fd (loop_remove id) = hit id fd
removes fd other = 0

closes : ℕ → Note → ℕ
closes fd (close id) = hit id fd
closes fd other = 0

connects : ℕ → Note → ℕ
connects fd (on_connect id) = hit id fd
connects fd other = 0

disconnects : ℕ → Note → ℕ
disconnects fd (on_disconnect id) = hit id fd
disconnects fd other = 0

unfoldable pub present : Option (List ℕ) → ℕ
present none = 0
present (some buffer) = 1

-- How often a descriptor was added to the event loop, removed from it, closed, and reported.
pub times_added : ℕ → TcpServer → ℕ
times_added fd s = tally (adds fd) s.notes

pub times_removed : ℕ → TcpServer → ℕ
times_removed fd s = tally (removes fd) s.notes

pub times_closed : ℕ → TcpServer → ℕ
times_closed fd s = tally (closes fd) s.notes

pub times_connected : ℕ → TcpServer → ℕ
times_connected fd s = tally (connects fd) s.notes

pub times_disconnected : ℕ → TcpServer → ℕ
times_disconnected fd s = tally (disconnects fd) s.notes

pub record IsBalanced (s : TcpServer) : Type 0 where
  pub open_or_closed :
      (fd : ℕ) → times_added fd s ≡ times_closed fd s + present (find fd s.connections)
  pub removed : (fd : ℕ) → times_removed fd s ≡ times_closed fd s
  pub told_end : (fd : ℕ) → times_disconnected fd s ≡ times_closed fd s
  pub told_begin : (fd : ℕ) → times_connected fd s ≡ times_added fd s

-- Notes that are not about the life of a connection.
pub IsSilent : List Note → Type 0
IsSilent notes =
    (fd : ℕ)
    → (tally (adds fd) notes ≡ 0)
      × (tally (removes fd) notes ≡ 0)
      × (tally (closes fd) notes ≡ 0)
      × (tally (connects fd) notes ≡ 0)
      × (tally (disconnects fd) notes ≡ 0)

pub silent-IsBalanced :
    (s t : TcpServer) (more : List Note)
    → t.notes ≡ s.notes ++ more
    → IsSilent more
    → ((fd : ℕ) → present (find fd t.connections) ≡ present (find fd s.connections))
    → IsBalanced s
    → IsBalanced t
unfolding IsSilent times_added times_removed times_closed times_connected times_disconnected
silent-IsBalanced s t more e quiet same h =
    let split : (f : Note → ℕ) → tally f t.notes ≡ tally f s.notes + tally f more =
      λ f. ap (tally f) e ∙ tally-append f s.notes more in
    record {
      open_or_closed = λ fd.
          omega (arith, split (adds fd), split (closes fd), quiet fd, same fd, h.open_or_closed fd);
      removed = λ fd. omega (arith, split (removes fd), split (closes fd), quiet fd, h.removed fd);
      told_end =
          λ fd. omega (arith, split (disconnects fd), split (closes fd), quiet fd, h.told_end fd);
      told_begin =
          λ fd. omega (arith, split (connects fd), split (adds fd), quiet fd, h.told_begin fd);
    }

pub none-IsSilent : IsSilent []
unfolding IsSilent tally
none-IsSilent other = (refl, refl, refl, refl, refl)

pub message-IsSilent : (fd : ℕ) (frame : List ℕ) → IsSilent (on_message fd frame ∷ [])
unfolding IsSilent tally adds removes closes connects disconnects
message-IsSilent fd frame other = (refl, refl, refl, refl, refl)

pub written-IsSilent : (fd : ℕ) (chunk : List ℕ) → IsSilent (written fd chunk ∷ [])
unfolding IsSilent tally adds removes closes connects disconnects
written-IsSilent fd chunk other = (refl, refl, refl, refl, refl)

-- One where the descriptors are equal.
same_one : (fd id : ℕ) → fd ≡ id → hit fd id ≡ 1
same_one fd id e = rw (e, ==_refl id) refl

other_none : (fd id : ℕ) → fd ≢ id → hit fd id ≡ 0
other_none fd id ne = rw (==_ne fd id ne) refl

pub present-insert_same :
    (fd id : ℕ) (buffer : List ℕ) (m : List (ℕ × List ℕ))
    → fd ≡ id
    → present (find id (insert fd buffer m)) ≡ 1
unfolding present
present-insert_same fd id buffer m e = rw (find-insert fd id buffer m) (rw (e, ==_refl id) refl)

pub present-insert_other :
    (fd id : ℕ) (buffer : List ℕ) (m : List (ℕ × List ℕ))
    → fd ≢ id
    → present (find id (insert fd buffer m)) ≡ present (find id m)
present-insert_other fd id buffer m ne = rw (find-insert fd id buffer m) (rw (==_ne fd id ne) refl)

present-erase_same :
    (fd id : ℕ) (m : List (ℕ × List ℕ)) → fd ≡ id → present (find id (erase fd m)) ≡ 0
unfolding present
present-erase_same fd id m e = rw (find-erase fd id m) (rw (e, ==_refl id) refl)

present-erase_other :
    (fd id : ℕ) (m : List (ℕ × List ℕ))
    → fd ≢ id
    → present (find id (erase fd m)) ≡ present (find id m)
present-erase_other fd id m ne = rw (find-erase fd id m) (rw (==_ne fd id ne) refl)

pub accept_one-IsBalanced :
    (fd : ℕ) (s : TcpServer)
    → find fd s.connections ≡ none
    → IsBalanced s
    → IsBalanced (accept_one fd s)
unfolding accept_one times_added times_removed times_closed times_connected times_disconnected tally
    adds removes closes connects disconnects present
accept_one-IsBalanced fd s new h =
    let more = loop_add fd ∷ on_connect fd ∷ [] in
    let split : (f : Note → ℕ) → tally f (s.notes ++ more) ≡ tally f s.notes + tally f more =
      λ f. tally-append f s.notes more in
    record {
      open_or_closed = λ id. elim (ℕ_discrete fd id) [
        | yes e ↦
            let was : present (find id s.connections) ≡ 0 =
              ap (λ x. present (find x s.connections)) (sym e) ∙ ap present new in
            omega (
              arith,
              split (adds id),
              split (closes id),
              same_one fd id e,
              was,
              present-insert_same fd id [] s.connections e,
              h.open_or_closed id,
            )
        | no ne ↦ omega (
          arith,
          split (adds id),
          split (closes id),
          other_none fd id ne,
          present-insert_other fd id [] s.connections ne,
          h.open_or_closed id,
        )
      ];
      removed = λ id. omega (arith, split (removes id), split (closes id), h.removed id);
      told_end = λ id. omega (arith, split (disconnects id), split (closes id), h.told_end id);
      told_begin = λ id. omega (arith, split (connects id), split (adds id), h.told_begin id);
    }

pub drop_connection-IsBalanced :
    (fd : ℕ) (o : Option (List ℕ)) (s : TcpServer)
    → find fd s.connections ≡ o
    → IsBalanced s
    → IsBalanced (drop_connection fd o s)
unfolding drop_connection times_added times_removed times_closed times_connected times_disconnected
    tally adds removes closes connects disconnects present
drop_connection-IsBalanced fd none s e h = h
drop_connection-IsBalanced fd (some buffer) s e h =
    let more = loop_remove fd ∷ close fd ∷ on_disconnect fd ∷ [] in
    let split : (f : Note → ℕ) → tally f (s.notes ++ more) ≡ tally f s.notes + tally f more =
      λ f. tally-append f s.notes more in
    record {
      open_or_closed = λ id. elim (ℕ_discrete fd id) [
        | yes same ↦
            let was : present (find id s.connections) ≡ 1 =
              ap (λ x. present (find x s.connections)) (sym same) ∙ ap present e in
            omega (
              arith,
              split (adds id),
              split (closes id),
              same_one fd id same,
              was,
              present-erase_same fd id s.connections same,
              h.open_or_closed id,
            )
        | no ne ↦ omega (
          arith,
          split (adds id),
          split (closes id),
          other_none fd id ne,
          present-erase_other fd id s.connections ne,
          h.open_or_closed id,
        )
      ];
      removed = λ id. omega (arith, split (removes id), split (closes id), h.removed id);
      told_end = λ id. omega (arith, split (disconnects id), split (closes id), h.told_end id);
      told_begin = λ id. omega (arith, split (connects id), split (adds id), h.told_begin id);
    }

pub new_server-IsBalanced : IsBalanced new_server
unfolding times_added times_removed times_closed times_connected times_disconnected tally present
    find
new_server-IsBalanced = record {
  open_or_closed = λ fd. refl;
  removed = λ fd. refl;
  told_end = λ fd. refl;
  told_begin = λ fd. refl;
}
