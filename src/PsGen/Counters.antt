-- ===== src/PsGen/Counters.antt =====
-- What the page machinery does to the counters: everything but the output, the encodings, the
-- declared font and the numbers that are printed in labels is left out of view.
use a2ps.Prelude.{
  ℕ, ◌+◌, ◌*◌, ◌==◌, ◌≡◌, refl, sym, ◌∙◌, ap, Bool, true, false, not, [], Option, none, some,
  if◌then◌else◌,
}
use a2ps.PsGen.{
  command, encoding_end, border, Settings, Job, Status, FileJob, Token, Place, ◌▷◌, when, output,
  set_status, output_marker, output_mark, output_mark_if, is_empty,
}
use a2ps.PsGen.Page.{
  ps_set_encoding, ps_end_encoding, ps_internal_switch_encoding, ps_push_encoding, ps_pop_encoding,
  file_job_synchronize_sheets, file_job_synchronize_pages, write_title, write_footer, binds,
  count_sheet, count_virtual, begin_setup, page_begin, page_end, virtual_begin, virtual_end, prints,
  is_same, is_null, set_encoding, end_of, prints_footer, prints_title,
}

abbrev plain_status : Status → Status
plain_status st = record st { face_declared = false; nonprinting_chars = 0 }

abbrev plain_file : FileJob → FileJob
plain_file file = record file {
  first_sheet = 0;
  sheets = 0;
  last_sheet = 0;
  first_page = 0;
  pages = 0;
  last_page = 0;
  top_line = 0;
  top_page = 0;
}

-- The counters of a job
unfoldable pub mask : Job → Job
mask j = record j {
  encoding = none;
  saved_encoding = none;
  opened_encoding = none;
  current_file = plain_file j.current_file;
  status = plain_status j.status;
  divertion = [];
}

abbrev Keeps : (Job → Job) → Type 0
Keeps f = (j : Job) → mask (f j) ≡ mask j

if-Keeps :
    (b : Bool) (x y z : Job)
    → mask x ≡ mask z
    → mask y ≡ mask z
    → mask (if b then x else y) ≡ mask z
if-Keeps true x y z h k = h
if-Keeps false x y z h k = k

when-Keeps : (b : Bool) (f : Job → Job) → Keeps f → Keeps (when b f)
unfolding when
when-Keeps true f k j = k j
when-Keeps false f k j = refl

when-mask :
    (b : Bool) (f g : Job → Job)
    → ((j : Job) → mask (f j) ≡ g (mask j))
    → (j : Job) → mask (when b f j) ≡ when b g (mask j)
unfolding when
when-mask true f g k j = k j
when-mask false f g k j = refl

output-Keeps : (t : Token) → Keeps (output t)
unfolding mask output
output-Keeps t j = refl

marker-Keeps : (s : Settings) (place : Place) → Keeps (output_marker s place)
unfolding mask output_marker output
marker-Keeps s place j = refl

mark-Keeps : (s : Settings) (place : Place) → Keeps (output_mark s place)
unfolding mask output_mark output_marker output
mark-Keeps s place j = if-Keeps (is_empty (s.marker place)) _ _ j refl refl

mark_if-Keeps : (s : Settings) (place : Place) → Keeps (output_mark_if s place)
unfolding mask output_mark_if output_marker output when
mark_if-Keeps s place j = if-Keeps (not (is_empty (s.marker place))) _ _ j refl refl

set_encoding-Keeps : (enc : Option ℕ) → Keeps (ps_set_encoding enc)
unfolding mask ps_set_encoding output
set_encoding-Keeps none j = refl
set_encoding-Keeps (some e) j = refl

end_of-Keeps : (enc : Option ℕ) → Keeps (end_of enc)
unfolding mask
end_of-Keeps none j = refl
end_of-Keeps (some e) j = output-Keeps (command (encoding_end e)) j

end_encoding-Keeps : Keeps ps_end_encoding
unfolding mask ps_end_encoding
end_encoding-Keeps j = end_of-Keeps j.opened_encoding j

switch-Keeps : (enc : Option ℕ) → Keeps (ps_internal_switch_encoding enc)
unfolding mask ps_internal_switch_encoding
switch-Keeps enc j = if-Keeps (is_same j.encoding enc) _ _ j refl (
    if-Keeps (is_null j.opened_encoding) (set_encoding enc (ps_end_encoding j))
      (ps_set_encoding enc (ps_end_encoding j)) j (end_encoding-Keeps j)
      (set_encoding-Keeps enc (ps_end_encoding j) ∙ end_encoding-Keeps j))

push-Keeps : (enc : Option ℕ) → Keeps (ps_push_encoding enc)
unfolding mask ps_push_encoding
push-Keeps enc j = switch-Keeps enc (record j { saved_encoding = j.encoding })

pop-Keeps : Keeps ps_pop_encoding
unfolding ps_pop_encoding
pop-Keeps j = switch-Keeps j.saved_encoding j

synchronize_sheets-Keeps : Keeps file_job_synchronize_sheets
unfolding mask file_job_synchronize_sheets
synchronize_sheets-Keeps j = refl

synchronize_pages-Keeps : Keeps file_job_synchronize_pages
unfolding mask file_job_synchronize_pages
synchronize_pages-Keeps j = refl

module _ (s : Settings) where
  -- What page_begin does to the counters
  abbrev pub begun : Job → Job
  begun j = record j { virtual = 1; sheets = if prints s j then j.sheets + 1 else j.sheets }

  begin_setup-Keeps : Keeps (begin_setup s)
  unfolding begin_setup
  begin_setup-Keeps j =
      output-Keeps _ _
      ∙ when-Keeps s.landscape _ (output-Keeps _) _
      ∙ when-Keeps (binds s j) _ (output-Keeps _) _
      ∙ output-Keeps _ _
      ∙ output-Keeps _ _

  count_sheet-begun : (j : Job) → mask (count_sheet s j) ≡ begun (mask j)
  unfolding mask count_sheet
  count_sheet-begun j = refl

  page_begin-begun : (j : Job) → mask (page_begin s j) ≡ begun (mask j)
  unfolding page_begin
  page_begin-begun j =
      switch-Keeps _ _
      ∙ output-Keeps _ _
      ∙ mark_if-Keeps s _ _
      ∙ set_encoding-Keeps _ _
      ∙ when-Keeps s.debug _ (output-Keeps _) _
      ∙ begin_setup-Keeps _
      ∙ count_sheet-begun j

  write_footer-Keeps : Keeps (write_footer s)
  unfolding write_footer
  write_footer-Keeps j = output-Keeps _ _ ∙ mark-Keeps s _ _ ∙ mark-Keeps s _ _ ∙ mark-Keeps s _ j

  -- What page_end does to the counters
  abbrev pub flushed : Job → Job
  flushed j = record j { virtual = 0 }

  flush-mask : (j : Job) → mask (record j { virtual = 0 }) ≡ flushed (mask j)
  unfolding mask
  flush-mask j = refl

  pub page_end-flushed : (j : Job) → mask (page_end s j) ≡ flushed (mask j)
  unfolding page_end
  page_end-flushed j =
      flush-mask _
      ∙ ap flushed (
          output-Keeps _ _
          ∙ end_encoding-Keeps _
          ∙ when-Keeps (prints_footer s) _ write_footer-Keeps _
          ∙ mark_if-Keeps s _ _
          ∙ push-Keeps _ _
          ∙ output-Keeps _ j)

  count_virtual-mask : (j : Job) → mask (count_virtual s j) ≡ count_virtual s (mask j)
  unfolding mask count_virtual
  count_virtual-mask j = refl

  pub virtual-mask : (j : Job) → (mask j).virtual ≡ j.virtual
  unfolding mask
  virtual-mask j = refl

  -- What virtual_begin does to the counters
  unfoldable pub begun_virtual : Job → Job
  begun_virtual j = count_virtual s j ▷ λ j. when (j.virtual == 1) begun j

  pub virtual_begin-begun : (j : Job) → mask (virtual_begin s j) ≡ begun_virtual (mask j)
  unfolding virtual_begin begun_virtual
  virtual_begin-begun j =
      output-Keeps _ _
      ∙ synchronize_sheets-Keeps _
      ∙ synchronize_pages-Keeps _
      ∙ when-Keeps _ _ (set_encoding-Keeps _) _
      ∙ when-mask _ _ begun page_begin-begun (count_virtual s j)
      ∙ rw (← count_virtual-mask j, virtual-mask (count_virtual s j))

  write_title-Keeps : Keeps (write_title s)
  unfolding write_title
  write_title-Keeps j =
      pop-Keeps _
      ∙ output-Keeps _ _
      ∙ mark-Keeps s _ _
      ∙ mark-Keeps s _ _
      ∙ mark-Keeps s _ _
      ∙ push-Keeps _ j

  -- What virtual_end does to the counters
  unfoldable pub ended_virtual : Job → Job
  ended_virtual j =
      when (j.virtual == s.columns * s.rows) flushed j ▷ set_status (λ st. record st { line = 0 })

  line-mask :
      (j : Job)
      → mask (set_status (λ st. record st { line = 0 }) j)
        ≡ set_status (λ st. record st { line = 0 }) (mask j)
  unfolding mask
  line-mask j = refl

  flushed_if-mask :
      (n : ℕ) (j k : Job)
      → mask j ≡ mask k
      → mask (when (j.virtual == n) (page_end s) j) ≡ when ((mask k).virtual == n) flushed (mask k)
  flushed_if-mask n j k e =
      when-mask (j.virtual == n) _ flushed page_end-flushed j
      ∙ ap (λ v. when (v == n) flushed (mask j)) {y = (mask j).virtual} (sym (virtual-mask j))
      ∙ ap (λ m. when (m.virtual == n) flushed m) {x = mask j} {y = mask k} e

  pub virtual_end-ended : (j : Job) → mask (virtual_end s j) ≡ ended_virtual (mask j)
  unfolding virtual_end ended_virtual
  virtual_end-ended j =
      let titled = when (prints_title s) (write_title s) j in
      let bordered = when s.has_border (output (command border)) titled in
      let k : mask bordered ≡ mask j =
        when-Keeps s.has_border _ (output-Keeps _) titled
        ∙ when-Keeps (prints_title s) _ write_title-Keeps j in
      let e = flushed_if-mask (s.columns * s.rows) bordered j k in
      line-mask (when (bordered.virtual == s.columns * s.rows) (page_end s) bordered)
      ∙ ap (set_status (λ st. record st { line = 0 }))
          {x = mask (when (bordered.virtual == s.columns * s.rows) (page_end s) bordered)} e
