-- ===== src/Engine/Footer/Sealed.antt =====
-- A file that was sealed is recognised: crates/engine/src/log/file.rs.
use mathlib.Core.List.{append_assoc}
use kv.Prelude.{◌+◌, ◌^◌, ◌<◌, ◌≡◌, refl, List, ◌++◌, some, All, arith, length, length-append, ok}
use kv.Engine.Record.{Crc}
use kv.Engine.File.{LogFile}
use kv.Engine.File.Append.{IsWritable, append_ok}
use kv.Engine.Footer.{
  FooterEntry, encode_entries, trailer, no_footer_faults, write_footer, read_footer,
}
use kv.Engine.Footer.RoundTrip.{EntryFits, length-trailer, read_footer-sealed}

module _ (c : Crc) (f : LogFile) (es : List FooterEntry) (w : IsWritable f) where
  -- The file behind the footer.
  abbrev pub sealed : LogFile
  sealed = record f {
    bytes = (f.bytes ++ encode_entries es) ++ trailer c (encode_entries es);
    write_offset =
        f.write_offset + length (encode_entries es) + length (trailer c (encode_entries es));
  }

  pub write_footer-sealed : write_footer c no_footer_faults f es ≡ (sealed, ok tt)
  unfolding write_footer
  write_footer-sealed =
      let f1 : LogFile = record f {
        bytes = f.bytes ++ encode_entries es;
        write_offset = f.write_offset + length (encode_entries es);
      } in
      let w1 : IsWritable f1 = record {
        healthy = w.healthy;
        at_end = omega (arith, w.at_end, length-append f.bytes (encode_entries es));
      } in
      rw (append_ok f (encode_entries es) w, append_ok f1 (trailer c (encode_entries es)) w1) refl

  -- write_footer on a healthy handle without a fault succeeds, and read_footer then returns the
  -- entries that were written. Conditions: the numbers of the entries fit their words, and the
  -- sealed file is shorter than 2^64 bytes.
  pub read_footer-write_footer :
      All EntryFits es
      → length f.bytes + length (encode_entries es) + 24 < 2 ^ 64
      → ((write_footer c no_footer_faults f es).1 ≡ ok tt)
        × (read_footer c (write_footer c no_footer_faults f es).0 ≡ ok (some es))
  read_footer-write_footer fits small = rw write_footer-sealed (
    refl,
    read_footer-sealed c es f.bytes sealed
        (append_assoc f.bytes (encode_entries es) (trailer c (encode_entries es))) fits
        (omega (
          arith,
          length-append (f.bytes ++ encode_entries es) (trailer c (encode_entries es)),
          length-append f.bytes (encode_entries es),
          length-trailer c (encode_entries es),
        )),
  )
