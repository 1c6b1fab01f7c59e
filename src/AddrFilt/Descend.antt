-- ===== src/AddrFilt/Descend.antt =====
-- addrfilt.c: the loops of `set_subnet` against the specification of an update.
use chrony.Common.{
  ℕ, zero, suc, ◌+◌, ◌-◌, ◌*◌, ◌/◌, ◌^◌, ◌<◌, ◌≤◌, Bool, List, [], ◌∷◌, if◌then◌else◌, ◌≡◌, ◌&&◌,
  ◌∙◌, ◌>>=◌, length, Option, some, arith, refl, ltb, leb,
}
use chrony.AddrFilt.{
  State, TableNode, branch, Nodes, table_size, modify, open_node, set_entries, modify_child,
  get_subnet, set_range, set_last, descend,
}
use chrony.AddrFilt.Spec.{state_at, update, covers, count, IsTable}
use chrony.AddrFilt.Update.{
  Maps, MapsIn, modify-MapsIn, set_node-Maps, set_entries-MapsIn, open_node_lem,
}

-- From bit `c` on, the words of `ip` have the digits `ds`.
abbrev pub Reads : List ℕ → ℕ → List ℕ → Type 0
Reads ip c [] = Unit
Reads ip c (d ∷ ds) = (get_subnet ip c ≡ some d) × (d < table_size) × Reads ip (c + 4) ds

module _ (ip : List ℕ) (new_state : State) (delete_children : Bool) where
  update-nil :
      (bits : ℕ) (ds : List ℕ) (s : State)
      → 0 < bits
      → update bits ds new_state delete_children [] s ≡ s
  unfolding update covers
  update-nil zero ds s h = absurd (omega arith)
  update-nil (suc zero) [] s h = refl
  update-nil (suc (suc zero)) [] s h = refl
  update-nil (suc (suc (suc zero))) [] s h = refl
  update-nil (suc (suc (suc (suc b)))) [] s h = refl
  update-nil (suc zero) (x ∷ ds) s h = refl
  update-nil (suc (suc zero)) (x ∷ ds) s h = refl
  update-nil (suc (suc (suc zero))) (x ∷ ds) s h = refl
  update-nil (suc (suc (suc (suc b)))) (x ∷ ds) s h = refl

  update-cons :
      (b x d : ℕ) (ds p : List ℕ) (s : State)
      → update (suc (suc (suc (suc b)))) (x ∷ ds) new_state delete_children (d ∷ p) s
        ≡ (if leb x d && ltb d (x + 1) then update b ds new_state delete_children p s else s)
  unfolding update covers
  update-cons b x d ds p s = ground arith

  -- One write to the child `x` of an opened node, or to the children from `lo` up to `hi`.
  branch-states :
      (k lo hi : ℕ) (n : TableNode) (s : State) (ns : Nodes) (result : Option Nodes)
      (u v : List ℕ → State → State)
      → ((p : List ℕ) → state_at (branch s ns) p ≡ state_at n p)
      → count ns ≡ table_size
      → MapsIn k lo hi u ns result
      → ((s : State) → v [] s ≡ s)
      → ((d : ℕ) (p : List ℕ) (s : State)
          → v (d ∷ p) s ≡ (if leb lo d && ltb d hi then u p s else s))
      → (n' : TableNode) × ((result >>= λ ns'. some (branch s ns')) ≡ some n')
        × IsTable (suc k) n'
        × ((p : List ℕ) → state_at n' p ≡ v p (state_at n p))
  unfolding state_at
  branch-states k lo hi n s ns result u v same c (ns', e, c', a, m) at_nil at_cons =
      (branch s ns', ground arith, (c' ∙ c, a), λ p. states p)
    where
      states : (p : List ℕ) → state_at (branch s ns') p ≡ v p (state_at n p)
      states [] = ground (arith, same [], at_nil s)
      states (d ∷ p) = ground (arith, same (d ∷ p), at_cons d p (state_at n (d ∷ p)), m d p)

  set_range-Maps :
      (k lo len : ℕ) (u : List ℕ → State → State)
      → lo + len ≤ table_size
      → ((s : State) → u [] s ≡ s)
      → ((d : ℕ) (p : List ℕ) (s : State)
          → u (d ∷ p) s ≡ (
              if leb lo d && ltb d (lo + len)
              then update 0 ip new_state delete_children p s
              else s))
      → Maps (suc k) (λ node. set_range ip new_state delete_children len lo (open_node node)) u
  unfolding set_range
  set_range-Maps k lo len u h at_nil at_cons n t =
      let (s, ns, e, c, a, same) = open_node_lem k n t in
      let entries = set_entries-MapsIn ip new_state delete_children k len lo ns (omega arith) a in
      rw e (
        branch-states k lo (lo + len) n s ns (set_entries ip new_state delete_children len lo ns)
          (update 0 ip new_state delete_children) u same c entries at_nil at_cons)

  -- The entries that a subnet ending inside a digit sets are those that share its first bits.
  update_partial :
      (b n x d : ℕ) (ds p : List ℕ) (s : State)
      → 0 < b
      → b < 4
      → n ≡ 2 ^ (4 - b)
      → update b (x ∷ ds) new_state delete_children (d ∷ p) s ≡ (
          if leb (x / n * n) d && ltb d (x / n * n + n)
          then update 0 ip new_state delete_children p s
          else s)
  unfolding update covers
  update_partial zero n x d ds p s h l e = absurd (omega arith)
  update_partial (suc zero) n x d ds p s h l e = rw e (ground arith)
  update_partial (suc (suc zero)) n x d ds p s h l e = rw e (ground arith)
  update_partial (suc (suc (suc zero))) n x d ds p s h l e = rw e (ground arith)
  update_partial (suc (suc (suc (suc b)))) n x d ds p s h l e = absurd (omega arith)

  last_fits : (b x : ℕ) → 0 < b → b < 4 → x < 16 → x / 2 ^ (4 - b) * 2 ^ (4 - b) + 2 ^ (4 - b) ≤ 16
  last_fits zero x h l t = absurd (omega arith)
  last_fits (suc zero) x h l t = omega arith
  last_fits (suc (suc zero)) x h l t = omega arith
  last_fits (suc (suc (suc zero))) x h l t = omega arith
  last_fits (suc (suc (suc (suc b)))) x h l t = absurd (omega arith)

  set_last-Maps :
      (b c x : ℕ) (ds : List ℕ)
      → 0 < b
      → b < 4
      → get_subnet ip c ≡ some x
      → x < 16
      → Maps
          (suc (length ds))
          (set_last ip new_state delete_children b c)
          (update b (x ∷ ds) new_state delete_children)
  set_last-Maps b c x ds h l e t n table =
      let (n', r, t', s) =
        set_range-Maps (length ds) (x / 2 ^ (4 - b) * 2 ^ (4 - b)) (2 ^ (4 - b))
          (update b (x ∷ ds) new_state delete_children) (last_fits b x h l t)
          (λ s. update-nil b (x ∷ ds) s h)
          (λ d p s. update_partial b (2 ^ (4 - b)) x d ds p s h l refl) n table in
      (n', (unfold set_last in ground (arith, last_fits b x h l t)), t', s)

  descend_zero-Maps :
      (c : ℕ) (ds : List ℕ)
      → Maps
          (length ds)
          (descend ip new_state delete_children 0 c)
          (update 0 ds new_state delete_children)
  unfolding descend set_last update covers
  descend_zero-Maps c ds = set_node-Maps ip new_state delete_children (length ds)

  pub descend-Maps :
      (bits c : ℕ) (ds : List ℕ)
      → Reads ip c ds
      → bits ≤ 4 * length ds
      → Maps
          (length ds)
          (descend ip new_state delete_children bits c)
          (update bits ds new_state delete_children)
  unfolding descend modify_child modify
  descend-Maps zero c ds r h = descend_zero-Maps c ds
  descend-Maps (suc bits) c [] r h = absurd (omega arith)
  descend-Maps (suc zero) c (x ∷ ds) r h =
      set_last-Maps 1 c x ds (omega arith) (omega arith) r.0 r.1
  descend-Maps (suc (suc zero)) c (x ∷ ds) r h =
      set_last-Maps 2 c x ds (omega arith) (omega arith) r.0 r.1
  descend-Maps (suc (suc (suc zero))) c (x ∷ ds) r h =
      set_last-Maps 3 c x ds (omega arith) (omega arith) r.0 r.1
  descend-Maps (suc (suc (suc (suc b)))) c (x ∷ ds) r h = λ n t.
      let (s, ns, e, k, a, same) = open_node_lem (length ds) n t in
      let below = descend-Maps b (c + 4) ds r.2 (omega arith) in
      let child =
        modify-MapsIn (length ds) (descend ip new_state delete_children b (c + 4))
          (update b ds new_state delete_children) below x ns (omega (arith, r.1)) a in
      rw (r.0, e)
        (branch-states (length ds) x (x + 1) n s ns
          (modify (descend ip new_state delete_children b (c + 4)) x ns)
          (update b ds new_state delete_children)
          (update (suc (suc (suc (suc b)))) (x ∷ ds) new_state delete_children) same k child
          (λ s. update-nil (suc (suc (suc (suc b)))) (x ∷ ds) s (omega arith))
          (λ d p s. update-cons b x d ds p s))
