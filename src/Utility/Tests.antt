-- ===== src/Utility/Tests.antt =====
-- source/utility.h: replacing on a concrete string, with a new text that holds the old one.
use migang_bot_cpp.Base.{◌≡◌, some, codes, is_empty, if◌then◌else◌}
use migang_bot_cpp.Strings.{replace_from}
use migang_bot_cpp.Utility.{replace_all}
use migang_bot_cpp.Utility.ReplaceAll.{replace_all_lem}

replace_all_lem_example :
    replace_all (codes "x&y") (codes "&") (codes "&amp;")
    ≡ some (
        if is_empty (codes "&")
        then codes "x&y"
        else replace_from (codes "&") (codes "&amp;") 0 (codes "x&y"))
replace_all_lem_example = replace_all_lem (codes "x&y") (codes "&") (codes "&amp;")
