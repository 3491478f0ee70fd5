-- ===== src/Console/Resume/Same.antt =====
-- client/console_ui.cc: a resumed upload sends what UploadFile sends.
use file_server.Prelude.{
  ℕ, zero, suc, ◌≡◌, refl, sym, ap, ◌∙◌, inl, inr, Bool-cases, Bool, not, Option, none, some, ◌++◌,
  length, if◌then◌else◌, if-true, if-false,
}
use file_server.Prelude.Int.{ℤ, pos, pos_part, ◌+ℤ◌, ◌-ℤ◌, ltb_ℤ, leb_ℤ}
use file_server.Prelude.Text.{Bytes}
use file_server.Prelude.Action.{Action, lift, ◌>>=◌}
use file_server.Json.{JsonLib, utf8, value_int64, at_int64}
use file_server.Services.UserService.{is_empty}
use file_server.Services.Filename.{base_name}
use file_server.Client.{
  ClientResponse, ok, Sender, Ending, unfinished, finished, stopped, send_upload_start,
  send_upload_data, send_with_file, piece, piece_size, after_piece, upload_round, upload_loop,
  finalized, after_upload, upload_from, upload_at, upload_started, upload_file,
}
use file_server.Client.Local.{LocalDisk, local_failure, upload_path}
use file_server.Console.{
  Console, read_line, Ui, on_world, print_data, print_response, when_logged_in, do_upload,
}
use file_server.Console.Resume.{
  resume_next, resume_loop, after_resume, resume_from, resume_at, resume_started, resume_path,
  do_resume_upload,
}

module _ (lib : JsonLib) {S : Type 0} (send : Sender lib S) (disk : LocalDisk) where
  resume_next-after_piece :
      (go go' : ℤ → Action S (Ending lib)) (offset : ℤ) (size : ℕ) (r : Option (ClientResponse lib))
      (s : S)
      → ((o : ℤ) (t : S) → go o t ≡ go' o t)
      → resume_next lib send disk go offset size r s ≡ after_piece lib send go' offset size r s
  unfolding resume_next after_piece
  resume_next-after_piece go go' offset size none s same = refl
  resume_next-after_piece go go' offset size (some resp) s same = elim (Bool-cases (ok lib resp)) [
    | inl good ↦
        if-false (some (stopped resp), s) (ap not good)
        ∙ same (offset +ℤ pos size) s
        ∙ sym (if-true (some (stopped resp), s) good)
    | inr bad ↦
        if-true (go (offset +ℤ pos size) s) (ap not bad)
        ∙ sym (if-false (go' (offset +ℤ pos size) s) bad)
  ]

  resume_loop-upload_loop :
      (rounds : ℕ) (token : Bytes) (file_id : ℤ) (readable : Bool) (file : Bytes) (offset : ℤ)
      (s : S)
      → resume_loop lib send disk rounds token file_id readable file offset s
        ≡ upload_loop lib send rounds token file_id readable file offset s
  unfolding resume_loop upload_loop upload_round
  resume_loop-upload_loop zero token file_id readable file offset s = refl
  resume_loop-upload_loop (suc rounds) token file_id readable file offset s =
      let size = piece_size (pos (length file)) offset in
      let sent =
        send_upload_data lib send token file_id offset (piece lib send readable file offset size)
          s in
      ap
        (λ (r : Option (Ending lib) × S).
          if ltb_ℤ offset (pos (length file)) then r else (some finished, s))
        (resume_next-after_piece (resume_loop lib send disk rounds token file_id readable file)
          (upload_loop lib send rounds token file_id readable file) offset size sent.0 sent.1
          (resume_loop-upload_loop rounds token file_id readable file))

  -- A step of the console leaves the world that a call of the client leaves.
  abbrev Follows : Ui lib send disk Bool → {A : Type 0} → Action S A → Console S → Type 0
  Follows u m c = (u c).1.world ≡ (m c.world).1

  print_data-world :
      (t : Option Bytes) (c : Console S) → (print_data lib send disk t c).1.world ≡ c.world
  unfolding print_data
  print_data-world none c = refl
  print_data-world (some t) c = refl

  print_response-world :
      (ok_msg : Option Bytes) (resp : ClientResponse lib) (c : Console S)
      → (print_response lib send disk ok_msg resp c).1.world ≡ c.world
  unfolding print_response
  print_response-world ok_msg resp c = elim (Bool-cases (ok lib resp)) [
    | inl good ↦ elim (Bool-cases (lib.is_empty resp.body)) [
      | inl nothing ↦ rw good (rw nothing refl)
      | inr something ↦ rw good (rw something (print_data-world (lib.dump resp.body) _))
    ]
    | inr bad ↦ rw bad refl
  ]

  lift-Follows :
      {A B : Type 0} (r : Option A) (f : A → Ui lib send disk Bool) (g : A → Action S B)
      (c : Console S)
      → ((a : A) → Follows (f a) (g a) c)
      → Follows (lift r >>= f) (lift r >>= g) c
  lift-Follows none f g c rest = refl
  lift-Follows (some a) f g c rest = rest a

  module _ {A B : Type 0} (f : A → Ui lib send disk Bool) (g : A → Action S B) (c : Console S)
      (rest : (a : A) (s : S) → Follows (f a) (g a) (record c { world = s })) where
    after_call :
        (r : Option A) (s : S)
        → (elim r as (λ _. Option Bool × Console S) [
          | none ↦ (none, record c { world = s })
          | some a ↦ f a (record c { world = s })
        ]).1.world
          ≡ (elim r as (λ _. Option B × S) [ none ↦ (none, s) | some a ↦ g a s ]).1
    after_call none s = refl
    after_call (some a) s = rest a s

    on_world-Follows : (m : Action S A) → Follows (on_world lib send disk m >>= f) (m >>= g) c
    on_world-Follows m = after_call (m c.world).0 (m c.world).1

  module _ (token : Bytes) where
    after_resume-Follows :
        (file_id : ℤ) (ending : Ending lib) (c : Console S)
        → Follows
            (after_resume lib send disk token file_id ending)
            (after_upload lib send token file_id ending)
            c
    unfolding after_resume after_upload
    after_resume-Follows file_id (stopped resp) c = print_response-world none resp c
    after_resume-Follows file_id unfinished c = refl
    after_resume-Follows file_id finished c =
        on_world-Follows (print_response lib send disk (some (utf8 "续传完成")))
          (λ resp. lift (finalized lib send file_id resp)) c
          (λ resp s. print_response-world (some (utf8 "续传完成")) resp (record c { world = s }))
          (send_with_file lib send (utf8 "upload_finalize") token file_id)

    module _ (file : Bytes) where
      resume_from-Follows :
          (file_id offset : ℤ) (c : Console S)
          → Follows
              (resume_from lib send disk token file file_id offset)
              (upload_from lib send token file file_id offset)
              c
      unfolding resume_from upload_from
      resume_from-Follows file_id offset c =
          let rounds = suc (pos_part (pos (length file) -ℤ offset)) in
          let readable = leb_ℤ (pos 0) offset in
          on_world-Follows (after_resume lib send disk token file_id)
            (after_upload lib send token file_id) c
            (λ ending s. after_resume-Follows file_id ending (record c { world = s }))
            (resume_loop lib send disk rounds token file_id readable file offset)
          ∙ ap
              (λ (r : Option (Ending lib) × S).
                (elim r.0 as (λ _. Option (ClientResponse lib) × S) [
                  | none ↦ (none, r.1)
                  | some ending ↦ after_upload lib send token file_id ending r.1
                ]).1)
              (resume_loop-upload_loop rounds token file_id readable file offset c.world)

      resume_at-Follows :
          (start : ClientResponse lib) (file_id : ℤ) (c : Console S)
          → Follows
              (resume_at lib send disk token file start file_id)
              (upload_at lib send token file start file_id)
              c
      unfolding resume_at upload_at
      resume_at-Follows start file_id c =
          lift-Follows (value_int64 lib (utf8 "offset") (pos 0) start.body)
            (resume_from lib send disk token file file_id) (upload_from lib send token file file_id)
            c (λ offset. resume_from-Follows file_id offset c)

      resume_started-Follows :
          (start : ClientResponse lib) (c : Console S)
          → Follows
              (resume_started lib send disk token file start)
              (upload_started lib send token file start)
              c
      unfolding resume_started upload_started
      resume_started-Follows start c = elim (Bool-cases (not (ok lib start))) [
        | inl refused ↦
            ap {A = Ui lib send disk Bool} (λ u. (u c).1.world) (if-true _ refused)
            ∙ print_response-world none start c
            ∙ sym (ap {A = Action S (ClientResponse lib)} (λ m. (m c.world).1) (if-true _ refused))
        | inr accepted ↦
            ap {A = Ui lib send disk Bool} (λ u. (u c).1.world) (if-false _ accepted)
            ∙ lift-Follows (at_int64 lib (utf8 "file_id") start.body)
                (resume_at lib send disk token file start) (upload_at lib send token file start) c
                (λ file_id. resume_at-Follows start file_id c)
            ∙ sym
                (ap {A = Action S (ClientResponse lib)} (λ m. (m c.world).1) (if-false _ accepted))
      ]

    abbrev opening : Bytes → Option Bytes → Action S (ClientResponse lib)
    opening path o = elim o [
      | none ↦ lift (some (local_failure lib (utf8 "无法打开文件: " ++ path)))
      | some file ↦ upload_file lib send token (base_name path path) (disk.md5 file) file
    ]

    resume_path-Follows :
        (path : Bytes) (o : Option Bytes) (c : Console S)
        → Follows (resume_path lib send disk token path o) (opening path o) c
    unfolding resume_path upload_file
    resume_path-Follows path none c = refl
    resume_path-Follows path (some file) c =
        on_world-Follows (resume_started lib send disk token file)
          (upload_started lib send token file) c
          (λ start s. resume_started-Follows file start (record c { world = s }))
          (send_upload_start lib send token (base_name path path) (pos (length file))
            (disk.md5 file))

  printed :
      {A : Type 0} (r : Option A) (f : A → Ui lib send disk Bool) (s : S) (c : Console S)
      → ((a : A) (d : Console S) → (f a d).1.world ≡ d.world)
      → (elim r as (λ _. Option Bool × Console S) [
        | none ↦ (none, record c { world = s })
        | some a ↦ f a (record c { world = s })
      ]).1.world
        ≡ s
  printed none f s c same = refl
  printed (some a) f s c same = same a (record c { world = s })

  -- For the same console and the same typed lines, the menu's resumed upload leaves everything that the
  -- client talks to as the menu's upload does.
  pub do_resume_upload-do_upload :
      (c : Console S)
      → (do_resume_upload lib send disk c).1.world ≡ (do_upload lib send disk c).1.world
  unfolding do_resume_upload do_upload when_logged_in upload_path
  do_resume_upload-do_upload c =
      let (path, d) = read_line c in
      elim (Bool-cases (is_empty c.token)) [
        | inl out ↦ rw out refl
        | inr logged_in ↦ rw logged_in (
            resume_path-Follows d.token path (disk.read path) d
            ∙ sym (
                printed (upload_path lib send disk d.token path d.world).0
                  (print_response lib send disk (some (utf8 "上传完成")))
                  (upload_path lib send disk d.token path d.world).1 d
                  (print_response-world (some (utf8 "上传完成")))))
      ]
