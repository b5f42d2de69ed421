-- ===== src/Tests/Attrs.antt =====
-- File 7 is hot; file 9 is added as cold.
use imr_dedupe.Prelude.{◌≡◌, refl, ◌==◌, if◌then◌else◌}
use imr_dedupe.FidTable.{
  hot_file_attr, cold_file_attr, error_file_attr, is_error, FidHead, get_attr, add_fid,
}
use imr_dedupe.FidTable.Attrs.{get_attr-add_fid}

abbrev seven_hot : FidHead
seven_hot = record {
  count = 1;
  capacity = 10;
  table = λ _. record { fid = 7; attr = hot_file_attr };
}

get_attr-add_fid_example : get_attr (add_fid seven_hot 9 cold_file_attr).0 9 ≡ (
    if is_error (get_attr seven_hot 9)
    then (if 9 == 9 then cold_file_attr else error_file_attr)
    else get_attr seven_hot 9)
get_attr-add_fid_example = get_attr-add_fid seven_hot 9 cold_file_attr 9 (λ j. refl)
