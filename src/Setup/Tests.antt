-- ===== src/Setup/Tests.antt =====
-- A framebuffer, and a list of tags with a command line.
use sunxi_babelfish.Fixup.Fits.{TagsFit}
use sunxi_babelfish.Common.{inr, ℕ, ◌+◌, ◌-◌, refl, ap, List, [], ◌∷◌, arith, get_or, map}
use sunxi_babelfish.Console.{codes}
use sunxi_babelfish.Memory.{Memory, Holds}
use sunxi_babelfish.Setup.Layout.{Holds-get_or}
use sunxi_babelfish.Libfdt.Small.{small, fresh, view}
use sunxi_babelfish.Fixup.Atags.{fdt_fixup_from_atags}
use sunxi_babelfish.Fixup.Tags.{Decided}
use sunxi_babelfish.Fixup.Machine.{Machine}
use sunxi_babelfish.Script.Store.{null_entry}
use sunxi_babelfish.Setup.Tags.{Body, core, mem, cmdline, initrd2, videolfb, acorn}
use sunxi_babelfish.Setup.Members.{content}
use sunxi_babelfish.Setup.Writer.{tag_bytes, list_bytes, IsContent}
use sunxi_babelfish.Setup.Seen.{AllContent, seen, from_laid_out}

abbrev tags_at : ℕ
tags_at = 256

abbrev image : List ℕ → Memory
image xs a = get_or xs (a - tags_at) 0

image-Holds : (xs : List ℕ) → Holds (image xs) tags_at xs
image-Holds xs =
    Holds-get_or (image xs) tags_at xs
      (λ i. ap (λ j. get_or xs j 0) {x = tags_at + i - tags_at} {y = i} (omega arith))

abbrev framebuffer : Body
framebuffer = videolfb (record {
  lfb_width = 1024;
  lfb_height = 600;
  lfb_depth = 32;
  lfb_linelength = 4096;
  lfb_base = 0x7f000000;
  lfb_size = 0x258000;
  red_size = 8;
  red_pos = 16;
  green_size = 8;
  green_pos = 8;
  blue_size = 8;
  blue_pos = 0;
  rsvd_size = 8;
  rsvd_pos = 24;
})

abbrev framebuffer_memory : Memory
framebuffer_memory = image (tag_bytes framebuffer)

framebuffer-IsContent : IsContent (content framebuffer)
framebuffer-IsContent = (
  omega arith,
  (
    omega arith,
    (
      omega arith,
      (
        omega arith,
        (
          omega arith,
          (
            omega arith,
            (
              omega arith,
              (
                omega arith,
                (
                  omega arith,
                  (omega arith, (omega arith, (omega arith, (omega arith, (omega arith, tt))))),
                ),
              ),
            ),
          ),
        ),
      ),
    ),
  ),
)

abbrev bodies : List Body
bodies =
    core (record { flags = 1; pagesize = 4096; rootdev = 255 })
    ∷ mem (record { size = 0x04000000; start = 0x40000000 })
    ∷ acorn (record { memc_control_reg = 7; vram_pages = 2; sounddefault = 1; adfsdrives = 3 })
    ∷ cmdline (record { cmdline = codes "debug" })
    ∷ initrd2 (record { start = 0x43000000; size = 4096 })
    ∷ []

abbrev bodies_memory : Memory
bodies_memory = image (list_bytes bodies)

bodies-AllContent : AllContent bodies
bodies-AllContent = (
  (omega arith, (omega arith, (omega arith, tt))),
  (
    (omega arith, (omega arith, tt)),
    (
      (omega arith, (omega arith, (omega arith, (omega arith, tt)))),
      (
        (
          (λ e. omega arith),
          (
            (λ e. omega arith),
            ((λ e. omega arith), ((λ e. omega arith), ((λ e. omega arith), tt))),
          ),
        ),
        ((omega arith, (omega arith, tt)), tt),
      ),
    ),
  ),
)

bodies_fit : TagsFit small (map seen bodies) fresh
bodies_fit = (tt, (inr refl, (tt, (refl, ((refl, refl), tt)))))

abbrev begin : Machine small
begin = record {
  fdt = fresh;
  store = record {
    hooks = record { prev = λ _. 0; next = λ _. 0 };
    heap_base = 4096;
    section_name = λ _. [];
    entry_name = λ _. [];
    entry_type = λ _. 0;
    payload = λ _. null_entry;
    log = [];
  };
}

from_laid_out_example :
    Decided small view 4 8
      (λ e. omega arith)
      (map seen bodies)
      begin
      (fdt_fixup_from_atags small 6 200 bodies_memory tags_at begin)
from_laid_out_example =
    from_laid_out small view 4 8 (λ e. omega arith) 200 bodies_memory tags_at bodies
      bodies-AllContent (omega arith) (omega arith) (image-Holds (list_bytes bodies)) begin
      (record { chosen = refl; memory = refl }) bodies_fit
