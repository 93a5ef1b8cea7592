-- ===== src/Tests/ProcessManager.antt =====
-- A run and an instance for the export table: process_manager.cpp.
use hook_nt.Prelude.{◌≡◌, refl, arith, none, some, List, [], ◌∷◌, ◌++◌, replicate, codes}
use hook_nt.Prelude.{◌==◌, if◌then◌else◌}
use hook_nt.Prelude.Words.{le_bytes}
use hook_nt.Memory.{custom_str_cmp}
use hook_nt.ProcessManager.{
  Read, nt_headers, export_directory, read_tables, export_tables, export_at, is_named, find_export,
  get_remote_export,
}
use hook_nt.ProcessManager.Exports.{ExportName, Resolves}
use hook_nt.ProcessManager.Images.{
  Image, IsImage, IsMapped, dos_bytes, nt_bytes, directory_bytes, get_remote_export-Resolves,
}

-- The function `F` at the offset 256 has the second name and the first ordinal.
abbrev names : List ExportName
names = record { name_rva = 1072; ordinal = 1 } ∷ record { name_rva = 1328; ordinal = 0 } ∷ []

abbrev small_image : Image
small_image = record {
  e_lfanew = 64;
  start = 512;
  size = 40;
  functions = 1024;
  names = 1040;
  ordinals = 1056;
  rvas = 256 ∷ 320 ∷ [];
  entries = names;
  dos_rest = replicate 58 0;
  nt_front = replicate 132 0;
  nt_rest = replicate 120 0;
  directory_front = replicate 20 0;
}

-- The image at 4096.
abbrev image : Read
image address size =
    if address == 4096
    then some (dos_bytes small_image)
    else if address == 4160
    then some (nt_bytes small_image)
    else if address == 4608
    then some (directory_bytes small_image)
    else if address == 5120
    then some (le_bytes 4 256 ++ le_bytes 4 320)
    else if address == 5136
    then some (le_bytes 4 1072 ++ le_bytes 4 1328)
    else if address == 5152
    then some (le_bytes 2 1 ++ le_bytes 2 0)
    else if address == 5168
    then some (0x45 ∷ replicate 255 0)
    else if address == 5424
    then some (0x46 ∷ replicate 255 0)
    else none

image_run :
    get_remote_export image 4096 (codes "F") ≡ some (record { address = 4352; forwarder = [] })
unfolding nt_headers export_directory read_tables export_tables export_at is_named find_export
    get_remote_export custom_str_cmp
image_run = refl

small_image-IsImage : IsImage small_image
small_image-IsImage = record {
  lfanew = omega arith;
  present = omega arith;
  in_range = omega arith;
  functions_fit = omega arith;
  names_fit = omega arith;
  ordinals_fit = omega arith;
  function_count = omega arith;
  name_count = omega arith;
  rvas_fit = (omega arith, (omega arith, tt));
  name_rvas_fit = (omega arith, (omega arith, tt));
  numbers_fit = (omega arith, (omega arith, tt));
  dos_size = refl;
  nt_size = refl;
  directory_size = refl;
}

image-IsMapped : IsMapped image 4096 small_image
image-IsMapped = record {
  dos = refl;
  nt = refl;
  directory = refl;
  function_table = refl;
  name_table = refl;
  ordinal_table = refl;
}

get_remote_export-Resolves_example :
    Resolves image 4096 512 40
      (codes "F")
      (256 ∷ 320 ∷ [])
      names
      (get_remote_export image 4096 (codes "F"))
get_remote_export-Resolves_example =
    get_remote_export-Resolves (codes "F") small_image-IsImage image-IsMapped
