-- ===== src/Clientlog/Timestamps/Room.antt =====
-- clientlog.c: how room is made for a new timestamp.
use chrony.Common.{
  ℕ, zero, suc, ◌+◌, ◌-◌, ◌^◌, ◌≤◌, ◌<◌, ◌&&◌, if◌then◌else◌, ltb, leb, ◌==◌, ◌≡◌, ◌≢◌, inl, inr,
  arith, refl, Bool-cases, subst, sym, ap,
}
use chrony.Clientlog.Timestamps.{NtpTimestampMap, get_ntp_tss, word64, sub64, slot}
use chrony.Clientlog.Timestamps.Store.{
  push_ntp_tss, trim, move_up, make_room, ntpts_future_limit, ntpts_insert_limit,
}
use chrony.Clientlog.Timestamps.Search.{at, offset, IsOrdered}
use chrony.Clientlog.Timestamps.Split.{IsSplit}
use chrony.Clientlog.Timestamps.Slots.{
  HasBuffer, drop_first, drop_first-HasBuffer, get-drop_first, get-move_up, move_up-kept,
}

-- The map with room at an index `k`. Every other timestamp is one of the old map, in their order, and
-- those before `k` are the ones that are older than the new one.
pub record IsPlaced (m : NtpTimestampMap) (rx r k : ℕ) (m' : NtpTimestampMap) : Type 0 where
  pub buffer : HasBuffer m'
  pub fits : m'.size ≤ m'.max_size
  pub inside : k < m'.size
  pub src : ℕ → ℕ
  pub from : (i : ℕ) → i < m'.size → i ≢ k → get_ntp_tss m' i ≡ get_ntp_tss m (src i)
  pub within : (i : ℕ) → i < m'.size → i ≢ k → src i < m.size
  pub left : (i : ℕ) → i < k → src i < r
  pub right : (i : ℕ) → k < i → i < m'.size → r ≤ src i
  pub rises : (i j : ℕ) → i < j → j < m'.size → i ≢ k → j ≢ k → src i < src j
  pub near : (i : ℕ) → r ≡ 0 → i < m'.size → i ≢ k → sub64 (at m (src i)) rx ≤ ntpts_future_limit

trim-bounds :
    (m : NtpTimestampMap) (rx index size : ℕ)
    → index ≤ size
    → (index ≤ trim m rx index size) × (trim m rx index size ≤ size)
unfolding trim
trim-bounds m rx index zero h = ground arith
trim-bounds m rx index (suc size) h = ground (arith, trim-bounds m rx index size)

trim-near :
    (m : NtpTimestampMap) (rx index size : ℕ)
    → index < trim m rx index size
    → sub64 (at m (trim m rx index size - 1)) rx ≤ ntpts_future_limit
unfolding trim at
trim-near m rx index zero h = absurd (omega arith)
trim-near m rx index (suc size) h =
    let last : suc size - 1 ≡ size = omega arith in
    elim (Bool-cases (ltb index (suc size) && ltb ntpts_future_limit (sub64 (at m size) rx))) [
      | inl t ↦
          let e : trim m rx index (suc size) ≡ trim m rx index size = rw t in
          subst (λ n. sub64 (at m (n - 1)) rx ≤ ntpts_future_limit) (sym e)
            (trim-near m rx index size (omega (arith, h, e)))
      | inr f ↦
          let e : trim m rx index (suc size) ≡ suc size = rw f in
          let lower : index < suc size = omega (arith, h, e) in
          let close : sub64 (at m size) rx ≤ ntpts_future_limit = ground arith in
          subst (λ n. sub64 (at m (n - 1)) rx ≤ ntpts_future_limit) (sym e)
            (subst (λ i. sub64 (at m i) rx ≤ ntpts_future_limit) (sym last) close)
    ]

-- The size is not part of a slot.
get-resize :
    (m : NtpTimestampMap) (t i : ℕ) → get_ntp_tss (record m { size = t }) i ≡ get_ntp_tss m i
unfolding get_ntp_tss slot
get-resize m t i = refl

module _ (m : NtpTimestampMap) (rx r : ℕ) (b : HasBuffer m) (fits : m.size ≤ m.max_size)
    (ordered : IsOrdered m) (small : rx < word64) (split : IsSplit m rx r) where
  -- The distances from a new first timestamp.
  pub future :
      (j : ℕ) → r ≡ 0 → j < m.size → sub64 (at m j) rx ≡ sub64 (at m 0) rx + offset m (at m j)
  future j e h =
      let old = split.start e (omega arith) in
      let apart : 2 ^ 63 ≤ sub64 rx (at m 0) = ground arith in
      let close = ordered.near j h in
      let range = ordered.range j h in let range0 = ordered.range 0 (omega arith) in omega arith

  append-IsPlaced :
      r ≡ m.size → m.size < m.max_size → IsPlaced m rx r r (record m { size = m.size + 1 })
  append-IsPlaced e h = record {
    buffer = record { room = b.room; small = b.small; inside = b.inside };
    fits = omega arith;
    inside = omega arith;
    src = λ i. i;
    from = λ i k n. get-resize m (m.size + 1) i;
    within = λ i k n. ground arith;
    left = λ i k. omega arith;
    right = λ i k l. absurd (omega arith);
    rises = λ i j k l n o. k;
    near = λ i z k n. ground arith;
  }

  drop_append-IsPlaced : r ≡ m.size → m.size ≡ m.max_size → IsPlaced m rx r (r - 1) (drop_first m)
  drop_append-IsPlaced e h = record {
    buffer = drop_first-HasBuffer m b;
    fits = omega arith;
    inside = omega (arith, b.room);
    src = λ i. i + 1;
    from = λ i k n. get-drop_first m i b (ground arith);
    within = λ i k n. ground arith;
    left = λ i k. omega arith;
    right = λ i k l. absurd (omega arith);
    rises = λ i j k l n o. omega arith;
    near = λ i z k n. absurd (omega (arith, b.room));
  }

  module _ (t : ℕ) (least : r ≤ t) (most : t ≤ m.size)
      (near : (j : ℕ) → r ≡ 0 → j < t → sub64 (at m j) rx ≤ ntpts_future_limit) where
    replace-IsPlaced : r < t → IsPlaced m rx r (r - 1) (record m { size = t })
    replace-IsPlaced h = record {
      buffer = record { room = b.room; small = b.small; inside = b.inside };
      fits = omega arith;
      inside = omega arith;
      src = λ i. i;
      from = λ i k n. get-resize m t i;
      within = λ i k n. omega arith;
      left = λ i k. omega arith;
      right = λ i k l. omega arith;
      rises = λ i j k l n o. k;
      near = λ i z k n. near i z k;
    }

    insert-IsPlaced : t < m.max_size → IsPlaced m rx r r (move_up t r (record m { size = t + 1 }))
    insert-IsPlaced h =
        let wide : NtpTimestampMap = record m { size = t + 1 } in
        let wide_buffer : HasBuffer wide = record {
          room = b.room;
          small = b.small;
          inside = b.inside;
        } in
        let kept = move_up-kept t r wide in
        let size' : (move_up t r wide).size ≡ t + 1 = ap (λ n. n.size) kept in
        let max_size' : (move_up t r wide).max_size ≡ m.max_size = ap (λ n. n.max_size) kept in
        let first' : (move_up t r wide).first ≡ m.first = ap (λ n. n.first) kept in
        record {
          buffer = record {
            room = omega (arith, b.room);
            small = omega (arith, b.small);
            inside = omega (arith, b.inside);
          };
          fits = omega arith;
          inside = omega arith;
          src = λ i. if ltb r i then i - 1 else i;
          from = λ i k n.
              let here : i < m.max_size = omega (arith, size') in
              let up : i ≤ t = omega (arith, size') in
              let moved = get-move_up t r wide i wide_buffer h here in
              ground (arith, moved, get-resize m (t + 1) i, get-resize m (t + 1) (i - 1));
          within = λ i k n. ground (arith, size');
          left = λ i k. ground arith;
          right = λ i k l. ground arith;
          rises = λ i j k l n o. ground arith;
          near = λ i z k n. near (if ltb r i then i - 1 else i) z (ground (arith, size'));
        }

    drop_insert-IsPlaced :
        t ≡ m.max_size
        → IsPlaced m rx r (r - 1) (move_up (t - 1) (r - 1) (drop_first (record m { size = t })))
    drop_insert-IsPlaced h =
        let whole : NtpTimestampMap = record m { size = t } in
        let whole_buffer : HasBuffer whole = record {
          room = b.room;
          small = b.small;
          inside = b.inside;
        } in
        let rest = drop_first whole in
        let rest_buffer = drop_first-HasBuffer whole whole_buffer in
        let kept = move_up-kept (t - 1) (r - 1) rest in
        let size' : (move_up (t - 1) (r - 1) rest).size ≡ t = ap (λ n. n.size) kept in
        let max_size' : (move_up (t - 1) (r - 1) rest).max_size ≡ m.max_size =
          ap (λ n. n.max_size) kept in
        let first' : (move_up (t - 1) (r - 1) rest).first ≡ rest.first = ap (λ n. n.first) kept in
        record {
          buffer = record {
            room = omega (arith, b.room);
            small = omega (arith, b.small);
            inside = omega (arith, rest_buffer.inside);
          };
          fits = omega arith;
          inside = omega (arith, b.room);
          src = λ i. if ltb i (r - 1) then i + 1 else i;
          from = λ i k n.
              let here : i < m.max_size = omega (arith, size') in
              let moved =
                get-move_up (t - 1) (r - 1) rest i rest_buffer (omega (arith, b.room)) here in
              elim (Bool-cases (ltb i (r - 1))) [
                | inl u ↦
                    let dropped = get-drop_first whole i whole_buffer (ground arith) in
                    ground (arith, moved, dropped, get-resize m t (i + 1))
                | inr v ↦
                    let dropped = get-drop_first whole (i - 1) whole_buffer (ground arith) in
                    let back : i - 1 + 1 ≡ i = ground arith in
                    let same = ap (get_ntp_tss whole) back in
                    ground (arith, moved, dropped, same, get-resize m t i)
              ];
          within = λ i k n. ground (arith, size');
          left = λ i k. ground arith;
          right = λ i k l. ground arith;
          rises = λ i j k l n o. ground arith;
          near = λ i z k n. near (if ltb i (r - 1) then i + 1 else i) z (ground (arith, size'));
        }

  trimmed-near :
      r ≤ m.size → (j : ℕ) → r ≡ 0 → j < trim m rx r m.size → sub64 (at m j) rx ≤ ntpts_future_limit
  trimmed-near h j e l =
      let t = trim m rx r m.size in
      let (low, high) = trim-bounds m rx r m.size h in
      let last = trim-near m rx r m.size (omega arith) in
      let here = future j e (omega arith) in
      let there = future (t - 1) e (omega arith) in
      elim (Bool-cases (j == t - 1)) [
        | inl u ↦
            let same : t - 1 ≡ j = ground arith in
            subst (λ i. sub64 (at m i) rx ≤ ntpts_future_limit) same last
        | inr v ↦
            let less : j < t - 1 = ground arith in
            let rise = ordered.rising j (t - 1) less (omega arith) in omega arith
      ]

  -- `make_room` leaves room for the new timestamp where it belongs.
  pub make_room-IsPlaced : IsPlaced m rx r (make_room m rx r).0 (make_room m rx r).1
  unfolding make_room push_ntp_tss
  make_room-IsPlaced =
      let back : (if ltb 0 r then r - 1 else r) ≡ r - 1 = ground arith in
      let t = trim m rx r m.size in
      let (low, high) = trim-bounds m rx r m.size split.upper in
      let near = trimmed-near split.upper in
      elim (Bool-cases (r == m.size)) [
        | inl last ↦
            let e : r ≡ m.size = ground arith in
            elim (Bool-cases (ltb m.size m.max_size)) [
              | inl wide ↦ rw (last, wide) (append-IsPlaced e (ground arith))
              | inr full ↦
                  let whole : m.size ≡ m.max_size = ground arith in
                  rw (last, full, back) (drop_append-IsPlaced e whole)
            ]
        | inr before ↦ elim (Bool-cases (leb t (r + ntpts_insert_limit))) [
          | inr far ↦ rw (before, far, back) (replace-IsPlaced t low high near (ground arith))
          | inl close ↦ elim (Bool-cases (ltb t m.max_size)) [
            | inl wide ↦
                let same : t + 1 - 1 ≡ t = omega arith in
                rw (before, close, wide, same) (insert-IsPlaced t low high near (ground arith))
            | inr full ↦
                let whole : t ≡ m.max_size = ground arith in
                rw (before, close, full, back) (drop_insert-IsPlaced t low high near whole)
          ]
        ]
      ]
