-- ===== src/Polybius/Tests.antt =====
-- The square of week3/polybius.c at concrete strings.
use cs5600_computer_system.Common.{◌≡◌, refl, some}
use cs5600_computer_system.Common.Text.{codes}
use cs5600_computer_system.Polybius.{
  standard_table, encode_cells, encode_rows, pb_encode, pb_decode, grid_at,
}
use cs5600_computer_system.Polybius.RoundTrip.{letters, pb_decode-pb_encode}

encode_jar : pb_encode (codes "Jar 1") standard_table ≡ codes "241142"
unfolding pb_encode encode_rows encode_cells
encode_jar = refl

decode_odd : pb_decode (codes "24114") standard_table ≡ some (codes "IA")
unfolding pb_decode grid_at
decode_odd = refl

pb_decode-pb_encode_example :
    pb_decode (pb_encode (codes "Jar 1") standard_table) standard_table
    ≡ some (letters (codes "Jar 1"))
pb_decode-pb_encode_example = pb_decode-pb_encode (codes "Jar 1")
