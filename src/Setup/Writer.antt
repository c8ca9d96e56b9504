-- ===== src/Setup/Writer.antt =====
-- The list of tags as the bootloader writes it.
use sunxi_babelfish.Common.{
  ℕ, ◌+◌, ◌-◌, ◌*◌, ◌/◌, ◌%◌, ◌^◌, ◌≢◌, List, [], ◌∷◌, ◌++◌, Bool, leb, length, replicate,
}
use sunxi_babelfish.Memory.{}
use sunxi_babelfish.ScriptBin.Image.{}
use sunxi_babelfish.Fixup.Atags.{}
use sunxi_babelfish.Setup.Layout.{Width, u32, members_from, end_of, widths, sizeof, AllFit}
use sunxi_babelfish.Setup.Tags.{atag_none, TagHeader, Body}
use sunxi_babelfish.Setup.Members.{Content, members, string, content, kind_of}

abbrev pub header_members : TagHeader → List (Width × ℕ)
header_members h = (u32, h.size) ∷ (u32, h.tag) ∷ []

-- A structure ends with its filling, a string with its terminator.
abbrev pub content_bytes : Content → List ℕ
content_bytes (members fs) =
    members_from 0 fs ++ replicate (sizeof (widths fs) - end_of 0 (widths fs)) 0
content_bytes (string s) = s ++ 0 ∷ []

-- `tag_size(type)`: the words of the header and a structure.
abbrev pub tag_size : List Width → ℕ
tag_size ws = (8 + sizeof ws) / 2 ^ 2

-- `tag_member_present(tag, member)`, for a member that ends at `last` in `struct tag` and a tag of
-- `size` words.
abbrev pub tag_member_present : (last size : ℕ) → Bool
tag_member_present last size = leb last (size * 4 % 2 ^ 32)

-- The words that a tag needs.
abbrev pub words : Body → ℕ
words b = (8 + length (content_bytes (content b)) + 3) / 4

abbrev pub header_of : Body → TagHeader
header_of b = record { size = words b; tag = kind_of b }

-- A tag, filled up to a whole number of words.
abbrev pub tag_bytes : Body → List ℕ
tag_bytes b =
    members_from 0 (header_members (header_of b))
    ++ (content_bytes (content b)
        ++ replicate (words b * 4 - (8 + length (content_bytes (content b)))) 0)

abbrev pub end_header : TagHeader
end_header = record { size = 0; tag = atag_none }

abbrev pub list_bytes : List Body → List ℕ
list_bytes [] = members_from 0 (header_members end_header)
list_bytes (b ∷ bs) = tag_bytes b ++ list_bytes bs

abbrev pub IsText : List ℕ → Type 0
IsText [] = Unit {0}
IsText (x ∷ xs) = (x ≢ 0) × IsText xs

-- Every member has a value of its type, and a string no zero byte.
abbrev pub IsContent : Content → Type 0
IsContent (members fs) = AllFit fs
IsContent (string s) = IsText s
