-- ===== src/Tests/Reading.antt =====
-- A run and a witness for the ranges of internal/object/get.go.
use opens.Prelude.{
  ℕ, ◌≡◌, refl, pos, negsuc, none, some, Option, [], ◌∷◌, Bytes, codes, length, take, drop,
}
use opens.Meta.Types.{Part, Object}
use opens.Service.Get.{GetInput, Window, window, refused, invalid_range, size_of}
use opens.Service.Get.Reader.{least}
use opens.Tests.Meta.{cat}
use opens.Tests.Listing.{first_part}
use opens.Tests.Runs.{put_cat}

abbrev two_bytes : Part → Bytes
two_bytes p = codes "ab"

abbrev size_of_part : Part → ℕ
size_of_part p = size_of p.size

abbrev left : Part
left = record first_part { size = pos 2 }

abbrev right : Part
right = record first_part { number = pos 2; size = pos 2 }

abbrev split_cat : Object
split_cat = record cat { parts = left ∷ right ∷ []; size = pos 4 }

abbrev open_two : Part → ℕ → ℕ → Option Bytes
open_two p off ln = some (take ln (drop off (two_bytes p)))

abbrev pull : Bytes → ℕ → ℕ
pull bs n = least n (length bs)

abbrev last_three : GetInput
last_three = record {
  bucket = codes "photos";
  key = codes "cat";
  version_id = [];
  range = some (record { start = negsuc 2; end = pos 0 });
  part_number = 0;
  conditions = put_cat.conditions;
  customer_key = none;
}

abbrev past_end : GetInput
past_end = record last_three { range = some (record { start = pos 4; end = pos 9 }) }

refused_there : window past_end split_cat ≡ refused invalid_range
unfolding window
refused_there = refl

abbrev last_window : Window
last_window = record { start = 1; stop = 4 }
