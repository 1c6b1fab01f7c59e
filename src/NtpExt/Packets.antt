-- ===== src/NtpExt/Packets.antt =====
-- ntp_ext.c: fields in a packet, added by `NEF_AddField` and read by `NEF_ParseField`.
use chrony.Common.{
  ℕ, ◌+◌, ◌%◌, ◌<◌, ◌≤◌, true, false, none, some, List, length, take, ◌≡◌, ◌⊎◌, inl, inr, arith,
  ◌∙◌, Option-cases,
}
use chrony.Common.Signed.{pos}
use chrony.Common.Bytes.{byte_at, write_at, slice, length-write_at, byte_at-write_at_before}
use chrony.NtpExt.{
  PacketInfo, format_field, add_blank_field, add_field, parse_field, packet_size, lvm_to_version,
}
use chrony.NtpExt.Fields.{
  FitsAt, FitsAt-format_field, header_of, field_of, with_field, header-write_at, slice-body,
  parse_single_field-header,
}

-- What a successful `NEF_AddField` has done.
record Added (packet : List ℕ) (info : PacketInfo) (type b : ℕ) (body packet' : List ℕ)
    (info' : PacketInfo) : Type 0 where
  fits : FitsAt packet_size info.length b
  header : 48 ≤ info.length
  version : info.version ≡ 4
  long : 16 ≤ 4 + b
  packet_eq : packet' ≡ with_field packet info.length type b body
  info_eq : info' ≡ record info { length = info.length + (4 + b); ext_fields = info.ext_fields + 1 }

-- A blank field that is added fits; one that is refused leaves the information alone.
pub add_blank_field-cases :
    (packet : List ℕ) (info : PacketInfo) (type b : ℕ)
    → let (packet', info', at) = add_blank_field packet info type (pos b) in
      ((at ≡ none) × (info' ≡ info))
      ⊎ (FitsAt packet_size info.length b
          × (48 ≤ info.length)
          × (info.version ≡ 4)
          × (16 ≤ 4 + b)
          × (packet' ≡ write_at packet info.length (header_of type b))
          × (info'
              ≡ record info { length = info.length + (4 + b); ext_fields = info.ext_fields + 1 })
          × (at ≡ some (info.length + 4)))
unfolding add_blank_field
add_blank_field-cases packet info type b =
    elim (Option-cases (format_field packet (pos packet_size) (pos info.length) type (pos b))) [
      | inl e ↦ ground arith
      | inr (f, e) ↦
          let (fits, eq) = FitsAt-format_field packet packet_size info.length type b e in
          ground (arith, fits.room)
    ]

add_field-Added :
    (packet : List ℕ) (info : PacketInfo) (type b : ℕ) (body packet' : List ℕ) (info' : PacketInfo)
    → add_field packet info type body b ≡ (packet', info', true)
    → Added packet info type b body packet' info'
unfolding add_field
add_field-Added packet info type b body packet' info' h =
    elim (add_blank_field-cases packet info type b) [
      | inl (e, i) ↦ absurd (ground arith)
      | inr (fits, header, version, long, p, i, at) ↦ record {
        fits = fits;
        header = header;
        version = version;
        long = long;
        packet_eq = ground arith;
        info_eq = ground arith;
      }
    ]

-- A body is written into the blank field.
pub add_field-add_blank_field :
    (packet : List ℕ) (info : PacketInfo) (type b at : ℕ) (body : List ℕ)
    → let (blank, info', result) = add_blank_field packet info type (pos b) in
      result ≡ some at
      → add_field packet info type body b ≡ (write_at blank at (take b body), info', true)
unfolding add_field
add_field-add_blank_field packet info type b at body e = rw (e, add_field)

length-add_blank_field :
    (packet : List ℕ) (info : PacketInfo) (type b : ℕ)
    → length (add_blank_field packet info type (pos b)).0 ≡ length packet
unfolding add_blank_field
length-add_blank_field packet info type b =
    elim (Option-cases (format_field packet (pos packet_size) (pos info.length) type (pos b))) [
      | inl e ↦ ground arith
      | inr (f, e) ↦
          let (fits, eq) = FitsAt-format_field packet packet_size info.length type b e in
          ground (arith, length-write_at packet info.length (header_of type b))
    ]

-- `NEF_AddField` keeps a packet of the full size at that size. If it fails, the information about
-- the packet is as before; if it succeeds, the packet has grown by one field, whose length is a
-- multiple of 4 and at least NTP_MIN_EF_LENGTH, and still fits.
add_field-grows :
    (packet : List ℕ) (info : PacketInfo) (type b : ℕ) (body : List ℕ)
    → length packet ≡ packet_size
    → let (packet', info', done) = add_field packet info type body b in
      (length packet' ≡ packet_size)
      × (((done ≡ false) × (info' ≡ info))
          ⊎ ((done ≡ true)
              × (info'.length ≡ info.length + (4 + b))
              × (info'.ext_fields ≡ info.ext_fields + 1)
              × (info'.length ≤ packet_size)
              × (info'.length % 4 ≡ 0)
              × (16 ≤ 4 + b)))
add_field-grows packet info type b body h = elim (add_blank_field-cases packet info type b) [
  | inl (e, i) ↦ (
    unfold add_field in ground (arith, length-add_blank_field packet info type b),
    unfold add_field in ground arith,
  )
  | inr (fits, header, version, long, p, i, at) ↦ (
    unfold add_field in
        ground (
          arith,
          length-write_at (write_at packet info.length (header_of type b)) (info.length + 4)
              (take b body),
          length-write_at packet info.length (header_of type b),
        ),
    unfold add_field in ground (arith, fits.room, fits.aligned, fits.whole),
  )
]

-- A field that `NEF_AddField` has put at the end of an NTPv4 packet is the one that
-- `NEF_ParseField` finds there, if the packet that is parsed has a valid length and goes on for
-- more than the largest MAC behind the start of the field: the length, the low 16 bits of the type,
-- and a body that holds the bytes given.
pub parse_field-add_field :
    (packet : List ℕ) (info : PacketInfo) (type b : ℕ) (body packet' : List ℕ) (info' : PacketInfo)
    (packet_length : ℕ)
    → add_field packet info type body b ≡ (packet', info', true)
    → length packet ≡ packet_size
    → b ≤ length body
    → lvm_to_version (byte_at packet 0) ≡ 4
    → info'.length ≤ packet_length
    → packet_length ≤ packet_size
    → packet_length % 4 ≡ 0
    → info.length + 24 < packet_length
    → (parse_field packet' packet_length info.length ≡ some (field_of info.length type b))
      × (slice packet' (info.length + 4) b ≡ take b body)
unfolding parse_field
parse_field-add_field packet info type b body packet' info' n h size hb v len small whole mac =
    let a = add_field-Added packet info type b body packet' info' h in
    let room : info.length + 4 + b ≤ packet_size = a.fits.room in
    let (t, k) =
      header-write_at packet info.length type b (take b body) (omega arith) a.fits.short in
    let grown : info'.length ≡ info.length + (4 + b) = ground (arith, a.info_eq) in
    let fits : FitsAt n info.length b = record {
      room = omega arith;
      aligned = a.fits.aligned;
      whole = a.fits.whole;
      short = a.fits.short;
    } in
    let first : byte_at (with_field packet info.length type b body) 0 ≡ byte_at packet 0 =
      byte_at-write_at_before (write_at packet info.length (header_of type b)) (info.length + 4)
        (take b body) 0 (omega arith)
      ∙ byte_at-write_at_before packet info.length (header_of type b) 0 (omega (arith, a.header)) in
    rw (a.packet_eq) (
      ground (
        arith,
        first,
        a.header,
        a.long,
        a.fits.aligned,
        parse_single_field-header (with_field packet info.length type b body) n info.length type b
            fits t k,
      ),
      slice-body (write_at packet info.length (header_of type b)) (info.length + 4) b body
          (omega (arith, length-write_at packet info.length (header_of type b))) hb,
    )
