-- ===== src/Dcs/Lock/Held.antt =====
-- What the requests for a lock, and its release, leave of the session's nodes in ZooKeeper.
use mathlib.Core.Path.{subst}
use rdsync.Base.{
  String, str_eq, Bool, true, false, Option, none, some, err, failed, ◌≡◌, ◌≢◌, refl, sym, ◌∙◌,
  arith, Bool-cases, ◌⊎◌, inl, inr, if◌then◌else◌, eq_iff,
}
use rdsync.Base.Hosts
use rdsync.Types.{Time}
use rdsync.Dcs.Lock.{
  LockOwner, is_self, Got, got, no_node, get_failed, Created, created, node_exists, create_failed,
  Requests, Held, if_created, if_got, ask_lock, if_deleted, release_got, release_lock,
}

-- What a ZooKeeper has: the owner that a node's data name, and whether the node is this session's own.
pub record Nodes (S : Type 0) : Type 1 where
  pub owner : S → String → Option LockOwner
  pub owns : S → String → Type 0

-- A node is left as it is.
abbrev pub IsLeft : {S : Type 0} → Nodes S → S → S → String → Type 0
IsLeft n s t q = (n.owner t q ≡ n.owner s q) × (n.owns s q → n.owns t q)

-- What ZooKeeper documents: a request to read changes nothing and returns a node's data; a node that
-- is created is the session's own, also where the answer does not come back; and a node is deleted
-- or not.
pub record IsHonest {S : Type 0} (z : Requests S) (n : Nodes S) (self : LockOwner) : Type 0 where
  pub get_same : (p : String) (s : S) → (z.get p s).1 ≡ s
  pub got_data :
      (p : String) (s : S) (o : LockOwner) → (z.get p s).0 ≡ got (some o) → n.owner s p ≡ some o
  pub create_one :
      (p : String) (s : S)
      → (((z.create p self s).1 ≡ s) × ((z.create p self s).0 ≢ created))
        ⊎ (n.owns (z.create p self s).1 p
            × ((q : String) → str_eq p q ≡ false → IsLeft n s (z.create p self s).1 q))
  pub delete_one :
      (p : String) (s : S)
      → ((z.delete p s).1 ≡ s)
        ⊎ ((n.owner (z.delete p s).1 p ≡ none)
            × ((q : String) → str_eq p q ≡ false → IsLeft n s (z.delete p s).1 q))

module _ {S : Type 0} (z : Requests S) (n : Nodes S) (self : LockOwner) where
  -- Each node with this process's data is this session's.
  abbrev pub OnlyOwn : S → Type 0
  OnlyOwn s =
      (q : String) (o : LockOwner) → n.owner s q ≡ some o → is_self self o ≡ true → n.owns s q

  -- Each lock that is remembered has its node.
  abbrev pub Covers : Held → S → Type 0
  Covers held s = (q : String) (t : Time) → Hosts.get held q ≡ some t → n.owns s q

  pub deleted :
      (held : Held) (p q : String) (t : Time)
      → Hosts.get (Hosts.delete held p) q ≡ some t
      → (str_eq p q ≡ false) × (Hosts.get held q ≡ some t)
  deleted held p q t e = ground (arith, Hosts.get-delete held p q)

  pub put-Covers :
      (held : Held) (s : S) (p : String) (now : Time)
      → n.owns s p
      → Covers held s
      → Covers (Hosts.put held p now) s
  put-Covers held s p now o h q t e = elim (Bool-cases (str_eq p q)) [
    | inl same ↦ subst (n.owns s) ((eq_iff p q).0 same) o
    | inr other ↦ h q t (ground (arith, Hosts.get-put held p now q))
  ]

  module _ (honest : IsHonest z n self) (path : String) where
    -- After the requests for the lock: the nodes with this process's data are still its own, none of
    -- its nodes is lost, and the lock's node is one if the lock is had.
    abbrev pub Asked : S → Bool × S → Type 0
    Asked s (had, t) =
        OnlyOwn t × ((q : String) → n.owns s q → n.owns t q) × (had ≡ true → n.owns t path)

    made :
        (s t : S)
        → OnlyOwn s
        → n.owns t path
        → ((q : String) → str_eq path q ≡ false → IsLeft n s t q)
        → OnlyOwn t × ((q : String) → n.owns s q → n.owns t q)
    made s t only mine left = (own, kept)
      where
        own : OnlyOwn t
        own q o e m = elim (Bool-cases (str_eq path q)) [
          | inl same ↦ subst (n.owns t) ((eq_iff path q).0 same) mine
          | inr other ↦ let (same, keeps) = left q other in keeps (only q o (sym same ∙ e) m)
        ]

        kept : (q : String) → n.owns s q → n.owns t q
        kept q h = elim (Bool-cases (str_eq path q)) [
          | inl same ↦ subst (n.owns t) ((eq_iff path q).0 same) mine
          | inr other ↦ (left q other).1 h
        ]

    created-Asked :
        (s : S) (r : Created × S)
        → OnlyOwn s
        → ((r.1 ≡ s) × (r.0 ≢ created))
          ⊎ (n.owns r.1 path × ((q : String) → str_eq path q ≡ false → IsLeft n s r.1 q))
        → Asked s (if_created z self path r)
    unfolding if_created
    created-Asked s (created, t) only (inl (same, fails)) = absurd (fails refl)
    created-Asked s (node_exists, t) only (inl (same, fails)) = rw same (only, (λ q h. h), λ e. cc)
    created-Asked s (create_failed, t) only (inl (same, fails)) =
        rw same (only, (λ q h. h), λ e. cc)
    created-Asked s (created, t) only (inr (mine, left)) =
        let (own, kept) = made s t only mine left in (own, kept, λ e. mine)
    created-Asked s (node_exists, t) only (inr (mine, left)) =
        let (own, kept) = made s t only mine left in (own, kept, λ e. mine)
    created-Asked s (create_failed, t) only (inr (mine, left)) =
        let (own, kept) = made s t only mine left in (own, kept, λ e. mine)

    got-Asked :
        (s : S) (r : Got × S)
        → OnlyOwn s
        → r.1 ≡ s
        → ((o : LockOwner) → r.0 ≡ got (some o) → n.owner s path ≡ some o)
        → Asked s (if_got z self path r)
    unfolding if_got
    got-Asked s (get_failed, t) only same named = rw same (only, (λ q h. h), λ e. cc)
    got-Asked s (no_node, t) only same named =
        rw same (created-Asked s (z.create path self s) only (honest.create_one path s))
    got-Asked s (got none, t) only same named = rw same (only, (λ q h. h), λ e. cc)
    got-Asked s (got (some o), t) only same named =
        rw same (only, (λ q h. h), λ e. only path o (named o refl) e)

    pub ask_lock-Asked : (s : S) → OnlyOwn s → Asked s (ask_lock z self path s)
    unfolding ask_lock
    ask_lock-Asked s only =
        got-Asked s (z.get path s) only (honest.get_same path s) (honest.got_data path s)

    -- After the release of a lock that is not remembered any more.
    abbrev Released : Type 0 → Held → S → Type 0
    Released In held t = OnlyOwn t × (In → Covers held t)

    abbrev CoversOthers : Type 0 → Held → S → Type 0
    CoversOthers In held s =
        In
        → (q : String) (t : Time) → Hosts.get held q ≡ some t
        → (str_eq path q ≡ false) × n.owns s q

    deleted-Released :
        (In : Type 0) (held : Held) (s : S) (r : Bool × S)
        → OnlyOwn s
        → CoversOthers In held s
        → (r.1 ≡ s)
          ⊎ ((n.owner r.1 path ≡ none) × ((q : String) → str_eq path q ≡ false → IsLeft n s r.1 q))
        → Released In held r.1
    deleted-Released In held s (b, t) only h (inl same) = rw same (only, λ i q u e. (h i q u e).1)
    deleted-Released In held s (b, t) only h (inr (gone, left)) =
        (own, λ i q u e. (left q (h i q u e).0).1 (h i q u e).1)
      where
        nothing : (o : LockOwner) → none ≡ some o → ⊥
        nothing o e = cc

        own : OnlyOwn t
        own q o e m = elim (Bool-cases (str_eq path q)) [
          | inl same ↦ absurd (
              nothing o
                (sym gone ∙ subst (λ p. n.owner t p ≡ some o) (sym ((eq_iff path q).0 same)) e))
          | inr other ↦ let (same, keeps) = left q other in keeps (only q o (sym same ∙ e) m)
        ]

    told_lem :
        (In : Type 0) (held : Held) (r : Bool × S)
        → Released In held r.1
        → let (_, held', t) = if_deleted z self path held r in Released In held' t
    unfolding if_deleted
    told_lem In held (true, t) i = i
    told_lem In held (false, t) i = i

    got-Released :
        (In : Type 0) (held : Held) (s : S) (r : Got × S)
        → OnlyOwn s
        → CoversOthers In held s
        → r.1 ≡ s
        → let (_, held', t) = release_got z self path held r in Released In held' t
    unfolding release_got
    got-Released In held s (get_failed, t) only h same = rw same (only, λ i q u e. (h i q u e).1)
    got-Released In held s (no_node, t) only h same = rw same (only, λ i q u e. (h i q u e).1)
    got-Released In held s (got none, t) only h same = rw same (only, λ i q u e. (h i q u e).1)
    got-Released In held s (got (some o), t) only h same = rw same (mine (is_self self o))
      where
        mine :
            (b : Bool)
            → let (_, held', t) =
                if b
                then if_deleted z self path held (z.delete path s)
                else (err (failed "process is not an owner"), held, s) in
              Released In held' t
        mine true =
            told_lem In held (z.delete path s)
              (deleted-Released In held s (z.delete path s) only h (honest.delete_one path s))
        mine false = (only, λ i q u e. (h i q u e).1)

    pub release_lock-Released :
        (In : Type 0) (held : Held) (s : S)
        → OnlyOwn s
        → (In → Covers held s)
        → let (_, held', t) = release_lock z self path held s in Released In held' t
    unfolding release_lock
    release_lock-Released In held s only h =
        got-Released In _ s (z.get path s) only
          (λ i q t e. let (other, e') = deleted held path q t e in (other, h i q t e'))
          (honest.get_same path s)
