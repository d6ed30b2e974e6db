-- ===== src/Persistence/Book.antt =====
-- What the tables of peers in minichain/persistence.py hold after any changes.
use mathlib.Core.Path.{subst}
use mathlib.Core.List.{Perm}
use mathlib.Core.List.Perm
use mini_chain.Base.{
  ℕ, ◌≤◌, ◌≡◌, refl, sym, ◌∙◌, ap, String, Bool, true, false, List, [], ◌∷◌, ◌++◌, take, drop, ltb,
  str_eq, if_intro, if◌then◌else◌, All, length, length-take-le, take-append-drop, arith,
}
use mini_chain.Persistence.Peers.{
  PeerRow, delete_row, has_row, insert_newest, newest_first, ban_peer, unban_peer, is_banned_in,
  remember_peer, get_known_peers,
}

pub data Change : Type 0 where
  bans : String → String → ℕ → Change
  unbans : String → Change

abbrev pub change : Change → List PeerRow → List PeerRow
change (bans id reason now) rs = ban_peer id reason now rs
change (unbans id) rs = unban_peer id rs

abbrev pub changes : List Change → List PeerRow → List PeerRow
changes [] rs = rs
changes (c ∷ cs) rs = changes cs (change c rs)

-- The last change of a peer counts.
abbrev pub banned_after : String → List Change → Bool → Bool
banned_after q [] before = before
banned_after q (bans id reason now ∷ cs) before =
    banned_after q cs (if str_eq id q then true else before)
banned_after q (unbans id ∷ cs) before = banned_after q cs (if str_eq id q then false else before)

has_row-delete_row :
    (q id : String) (rs : List PeerRow)
    → has_row q (delete_row id rs) ≡ (if str_eq id q then false else has_row q rs)
unfolding has_row delete_row
has_row-delete_row q id [] = ground arith
has_row-delete_row q id (r ∷ rs) = ground (arith, has_row-delete_row q id rs)

has_row-append :
    (q : String) (rs : List PeerRow) (r : PeerRow)
    → has_row q (rs ++ r ∷ []) ≡ (if str_eq r.peer_id q then true else has_row q rs)
unfolding has_row
has_row-append q [] r = ground arith
has_row-append q (s ∷ rs) r = ground (arith, has_row-append q rs r)

pub has_row-remember_peer :
    (q id addr : String) (now : ℕ) (rs : List PeerRow)
    → has_row q (remember_peer id addr now rs) ≡ (if str_eq id q then true else has_row q rs)
unfolding remember_peer
has_row-remember_peer q id addr now rs = ground (
  arith,
  has_row-append q (delete_row id rs) (record { peer_id = id; text = addr; time = now }),
  has_row-delete_row q id rs,
)

change-banned :
    (q : String) (c : Change) (rs : List PeerRow)
    → is_banned_in q (change c rs) ≡ banned_after q (c ∷ []) (is_banned_in q rs)
unfolding ban_peer unban_peer
change-banned q (bans id reason now) rs = ground (
  arith,
  has_row-append q (delete_row id rs) (record { peer_id = id; text = reason; time = now }),
  has_row-delete_row q id rs,
)
change-banned q (unbans id) rs = has_row-delete_row q id rs

-- A peer is banned exactly if its last change was a ban, or there was none and it was before.
pub changes-banned :
    (q : String) (cs : List Change) (rs : List PeerRow)
    → is_banned_in q (changes cs rs) ≡ banned_after q cs (is_banned_in q rs)
changes-banned q [] rs = refl
changes-banned q (bans id reason now ∷ cs) rs =
    changes-banned q cs (change (bans id reason now) rs)
    ∙ ap (banned_after q cs) (change-banned q (bans id reason now) rs)
changes-banned q (unbans id ∷ cs) rs =
    changes-banned q cs (change (unbans id) rs)
    ∙ ap (banned_after q cs) (change-banned q (unbans id) rs)

abbrev pub IsSorted : List PeerRow → Type 0
IsSorted [] = Unit
IsSorted (r ∷ rs) = All (λ (s : PeerRow). s.time ≤ r.time) rs × IsSorted rs

All-weaken :
    (n m : ℕ) (rs : List PeerRow)
    → n ≤ m
    → All (λ (s : PeerRow). s.time ≤ n) rs
    → All (λ (s : PeerRow). s.time ≤ m) rs
All-weaken n m [] le all = tt
All-weaken n m (r ∷ rs) le (first, all) = (omega (arith, le, first), All-weaken n m rs le all)

insert_newest-All :
    (P : PeerRow → Type 0) (r : PeerRow) (rs : List PeerRow)
    → P r
    → All P rs
    → All P (insert_newest r rs)
unfolding insert_newest
insert_newest-All P r [] new all = (new, tt)
insert_newest-All P r (s ∷ ss) new (first, all) =
    if_intro (All P) (ltb r.time s.time) (λ _. (first, insert_newest-All P r ss new all))
      (λ _. (new, (first, all)))

insert_newest-IsSorted :
    (r : PeerRow) (rs : List PeerRow) → IsSorted rs → IsSorted (insert_newest r rs)
unfolding insert_newest
insert_newest-IsSorted r [] ok = (tt, tt)
insert_newest-IsSorted r (s ∷ ss) (bound, ok) =
    if_intro IsSorted (ltb r.time s.time)
      (λ lt. (
        insert_newest-All (λ (x : PeerRow). x.time ≤ s.time) r ss (ground arith) bound,
        insert_newest-IsSorted r ss ok,
      ))
      (λ ge.
        let le : s.time ≤ r.time = ground arith in
        ((le, All-weaken s.time r.time ss le bound), (bound, ok)))

newest_first-IsSorted : (rs : List PeerRow) → IsSorted (newest_first rs)
unfolding newest_first
newest_first-IsSorted [] = tt
newest_first-IsSorted (r ∷ rs) =
    insert_newest-IsSorted r (newest_first rs) (newest_first-IsSorted rs)

insert_newest-Perm : (r : PeerRow) (rs : List PeerRow) → Perm (insert_newest r rs) (r ∷ rs)
unfolding insert_newest
insert_newest-Perm r [] = Perm.refl (r ∷ [])
insert_newest-Perm r (s ∷ ss) =
    if_intro (λ x. Perm x (r ∷ s ∷ ss)) (ltb r.time s.time)
      (λ _. Perm.trans (Perm.cons s (insert_newest-Perm r ss)) (Perm.swap r s ss))
      (λ _. Perm.refl (r ∷ s ∷ ss))

newest_first-Perm : (rs : List PeerRow) → Perm (newest_first rs) rs
unfolding newest_first
newest_first-Perm [] = Perm.refl []
newest_first-Perm (r ∷ rs) =
    Perm.trans (insert_newest-Perm r (newest_first rs)) (Perm.cons r (newest_first-Perm rs))

-- No row of the second list is newer than one of the first.
abbrev pub NoneNewer : List PeerRow → List PeerRow → Type 0
NoneNewer shown rest = All (λ (r : PeerRow). All (λ (s : PeerRow). s.time ≤ r.time) rest) shown

All-append-inv :
    (P : PeerRow → Type 0) (xs ys : List PeerRow) → All P (xs ++ ys) → All P xs × All P ys
All-append-inv P [] ys all = (tt, all)
All-append-inv P (x ∷ xs) ys (first, all) =
    let (left, right) = All-append-inv P xs ys all in ((first, left), right)

IsSorted-append : (xs ys : List PeerRow) → IsSorted (xs ++ ys) → IsSorted xs × NoneNewer xs ys
IsSorted-append [] ys ok = (tt, tt)
IsSorted-append (x ∷ xs) ys (bound, ok) =
    let (sorted, older) = IsSorted-append xs ys ok in
    let (left, right) = All-append-inv (λ (s : PeerRow). s.time ≤ x.time) xs ys bound in
    ((left, sorted), (right, older))

-- The peers that are dialled again: at most as many rows as the limit, the newest first, and together
-- with rows of which none is newer they are the table.
pub get_known_peers_lem :
    (limit : ℕ) (rs : List PeerRow)
    → (length (get_known_peers limit rs) ≤ limit)
      × IsSorted (get_known_peers limit rs)
      × ((rest : List PeerRow) × Perm (get_known_peers limit rs ++ rest) rs
          × NoneNewer (get_known_peers limit rs) rest)
unfolding get_known_peers
get_known_peers_lem limit rs =
    let rows = newest_first rs in
    let whole = take-append-drop limit rows in
    let (sorted, older) =
      IsSorted-append (take limit rows) (drop limit rows)
        (subst IsSorted (sym whole) (newest_first-IsSorted rs)) in
    (
      length-take-le limit rows,
      sorted,
      (drop limit rows, subst (λ xs. Perm xs rs) (sym whole) (newest_first-Perm rs), older),
    )
