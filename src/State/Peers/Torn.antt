-- ===== src/State/Peers/Torn.antt =====
-- A peers file of src/state/peers.rs in which two calls of `append_peer` wrote at once: both keys,
-- and then both newlines.
use mathlib.Core.List.{append_assoc}
use mathlib.Core.Path.{ap₂}
use utx0_node.Base.{
  ℕ, ◌≡◌, ◌+◌, ◌-◌, ◌*◌, ◌^◌, ltb, ◌==◌, refl, false, ap, sym, subst, ◌∙◌, Bool-cases, some, Text,
  Bytes, lit, List, [], ◌∷◌, ◌++◌, err, inl, inr,
}
use utx0_node.Peer.{Peer}
use utx0_node.Peer.Laws.{IsAddress}
use utx0_node.Std.Decimal
use utx0_node.Std.Decimal.{
  ParseIntError, to_string-last, parse_digits, parse_u16, is_digit, StartsWithDigit,
  StartsWithDigit-append,
}
use utx0_node.Std.Ipv4
use utx0_node.Std.Ipv4.Laws.{show-StartsWithDigit}
use utx0_node.Std.Split.{split}
use utx0_node.Std.Split.Laws.{Lacks, Lacks-append, split-append, split-Lacks}
use utx0_node.Std.Trim.{trim}
use utx0_node.Std.Trim.Laws.{trim-digits}
use utx0_node.Std.Utf8.{is_utf8}
use utx0_node.State.Peers.{
  key, load_line, load_lines, load_from_disk, lines_of, last_line, strip_cr, parse_fields, insert,
}
use utx0_node.State.Peers.Lines.{
  is_dotted, host-IsDotted, IsDotted-Lacks, number-IsDotted, key-Lacks, load_line-key,
}
use utx0_node.State.Peers.Persistence.{
  render, keys, lines_of-split, add_all, add_all-Fresh, strip_cr-Lacks, AllAddresses, Fresh,
}

parse_digits-dot :
    (acc : ℕ) (s t : Text) → (e : ParseIntError) × (parse_digits acc (s ++ b'.' ∷ t) ≡ err e)
unfolding parse_digits
parse_digits-dot acc [] t = (ParseIntError.invalid_digit, refl)
parse_digits-dot acc (c ∷ s) t =
    let (e, fails) = parse_digits-dot (acc * 10 + (c - 48)) s t in
    elim (Bool-cases (is_digit c)) [
      | inr other ↦ (ParseIntError.invalid_digit, rw other refl)
      | inl digit ↦ elim (Bool-cases (ltb (acc * 10 + (c - 48)) (2 ^ 16))) [
        | inl small ↦ (e, rw (digit, small) fails)
        | inr big ↦ (ParseIntError.pos_overflow, rw (digit, big) refl)
      ]
    ]

parse_u16-dot : (s t : Text) → (e : ParseIntError) × (parse_u16 (s ++ b'.' ∷ t) ≡ err e)
unfolding parse_u16
parse_u16-dot [] [] = (ParseIntError.invalid_digit, refl)
parse_u16-dot [] (d ∷ t) = (ParseIntError.invalid_digit, refl)
parse_u16-dot (c ∷ []) t = elim (Bool-cases (c == b'+')) [
  | inl plus ↦ let (e, fails) = parse_digits-dot 0 [] t in (e, rw plus fails)
  | inr other ↦ let (e, fails) = parse_digits-dot 0 (c ∷ []) t in (e, rw other fails)
]
parse_u16-dot (c ∷ d ∷ s) t = elim (Bool-cases (c == b'+')) [
  | inl plus ↦ let (e, fails) = parse_digits-dot 0 (d ∷ s) t in (e, rw plus fails)
  | inr other ↦ let (e, fails) = parse_digits-dot 0 (c ∷ d ∷ s) t in (e, rw other fails)
]

abbrev torn : Peer → Peer → Text
torn p q = key p ++ key q

module _ (p q : Peer) (a : IsAddress p) (b : IsAddress q) where
  port_str : Text
  port_str = Decimal.to_string p.port ++ q.host

  torn-fields : torn p q ≡ p.host ++ b',' ∷ (port_str ++ b',' ∷ Decimal.to_string q.port)
  unfolding key port_str
  torn-fields = simp append_assoc

  split-torn : split b',' (torn p q) ≡ p.host ∷ port_str ∷ Decimal.to_string q.port ∷ []
  unfolding port_str
  split-torn =
      ap (split b',') torn-fields
      ∙ split-append b',' p.host _ (IsDotted-Lacks b',' p.host refl (host-IsDotted p a))
      ∙ ap (λ l. p.host ∷ l)
          (split-append b',' port_str (Decimal.to_string q.port) (
              Lacks-append b',' (Decimal.to_string p.port) q.host
                (IsDotted-Lacks b',' _ refl (number-IsDotted p.port))
                (IsDotted-Lacks b',' q.host refl (host-IsDotted q b)))
            ∙ ap (λ l. port_str ∷ l)
                (split-Lacks b',' (Decimal.to_string q.port)
                  (IsDotted-Lacks b',' _ refl (number-IsDotted q.port))))

  trim-torn : trim (torn p q) ≡ torn p q
  unfolding key
  trim-torn =
      let (s, c, port, d) = to_string-last q.port in
      trim-digits (key p ++ (q.host ++ b',' ∷ s)) c
        (subst (λ h. StartsWithDigit ((h ++ b',' ∷ Decimal.to_string p.port) ++ key q))
          (sym a.host_text)
          (StartsWithDigit-append (key q)
            (StartsWithDigit-append _ (show-StartsWithDigit a.address))))
        (ap (λ t. key p ++ (q.host ++ b',' ∷ t)) port
          ∙ sym (
              append_assoc (key p) (q.host ++ b',' ∷ s) (c ∷ [])
              ∙ ap (λ t. key p ++ t) (append_assoc q.host (b',' ∷ s) (c ∷ []))))
        d

  port_str-fails : (e : ParseIntError) × (parse_u16 port_str ≡ err e)
  unfolding port_str Ipv4.show
  port_str-fails =
      let i = b.address in
      let (e, fails) =
        parse_u16-dot (Decimal.to_string p.port ++ Decimal.to_string i.a) (
          Decimal.to_string i.b
          ++ b'.' ∷ (Decimal.to_string i.c ++ b'.' ∷ Decimal.to_string i.d)) in
      (
        e,
        ap (λ h. parse_u16 (Decimal.to_string p.port ++ h)) b.host_text
            ∙ ap parse_u16 (sym (append_assoc (Decimal.to_string p.port) (Decimal.to_string i.a) _))
            ∙ fails,
      )

  load_line-torn : (map : List Peer) → load_line (torn p q) map ≡ map
  unfolding load_line parse_fields
  load_line-torn map =
      let (e, fails) = port_str-fails in
      elim (Bool-cases (is_utf8 (torn p q))) [
        | inl good ↦ rw (good, trim-torn, split-torn, fails) refl
        | inr bad ↦ rw bad refl
      ]

  torn-Lacks : (c : ℕ) → is_dotted c ≡ false → (b',' == c) ≡ false → Lacks c (torn p q)
  torn-Lacks c h comma =
      Lacks-append c (key p) (key q) (key-Lacks c p a h comma) (key-Lacks c q b h comma)

  abbrev ending : Bytes
  ending = torn p q ++ lit "\n\n"

  lines_of-ending : lines_of (split b'\n' ending) ≡ torn p q ∷ [] ∷ []
  unfolding lines_of last_line split
  lines_of-ending =
      ap lines_of (split-append b'\n' (torn p q) (lit "\n") (torn-Lacks b'\n' refl refl))
      ∙ ap₂ ◌∷◌ (strip_cr-Lacks (torn p q) (torn-Lacks 13 refl refl)) (unfold strip_cr in refl)

  lines_of-torn :
      (ps : List Peer)
      → AllAddresses ps
      → lines_of (split b'\n' (render ps ++ ending)) ≡ keys ps ++ (torn p q ∷ [] ∷ [])
  unfolding render keys
  lines_of-torn [] h = lines_of-ending
  lines_of-torn (r ∷ ps) (d, h) =
      ap (λ t. lines_of (split b'\n' t)) (append_assoc (key r) (b'\n' ∷ render ps) ending)
      ∙ ap lines_of
          (split-append b'\n' (key r) (render ps ++ ending) (key-Lacks b'\n' r d refl refl))
      ∙ lines_of-split (key r) (render ps ++ ending)
      ∙ ap₂ ◌∷◌ (strip_cr-Lacks (key r) (key-Lacks 13 r d refl refl)) (lines_of-torn ps h)

  load_lines-append :
      (ps map : List Peer) (rest : List Text)
      → AllAddresses ps
      → load_lines (keys ps ++ rest) map ≡ load_lines rest (add_all ps map)
  unfolding load_lines keys
  load_lines-append [] map rest h = refl
  load_lines-append (r ∷ ps) map rest (d, h) =
      ap (load_lines (keys ps ++ rest)) (load_line-key r map d)
      ∙ load_lines-append ps (insert r map) rest h

  load_lines-torn : (map : List Peer) → load_lines (torn p q ∷ [] ∷ []) map ≡ map
  unfolding load_lines load_line trim split is_utf8 parse_fields
  load_lines-torn map = load_line-torn map

  -- A file of peers, then two keys and only then their newlines: neither of the two is loaded.
  pub load_from_disk-torn :
      (ps : List Peer)
      → AllAddresses ps
      → Fresh [] ps
      → load_from_disk (some (render ps ++ ending)) ≡ ps
  unfolding load_from_disk
  load_from_disk-torn ps h f =
      ap (λ l. load_lines l []) (lines_of-torn ps h)
      ∙ load_lines-append ps [] _ h
      ∙ load_lines-torn (add_all ps [])
      ∙ add_all-Fresh ps [] f
