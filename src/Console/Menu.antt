-- ===== src/Console/Menu.antt =====
-- client/console_ui.cc: the menu, and what it does without a login and at the end of the input.
use file_server.Prelude.{
  ℕ, zero, suc, ◌≡◌, refl, sym, subst, Bool, true, false, Option, none, some, List, [], ◌++◌,
  if◌then◌else◌, if-false,
}
use file_server.Prelude.Int.{ℤ}
use file_server.Prelude.Text.{Bytes, same_text}
use file_server.Prelude.Action.{call, ◌>>=◌}
use file_server.Json.{JsonLib, utf8}
use file_server.Network.{Network, connect}
use file_server.Services.UserService.{is_empty}
use file_server.Client.{Sender}
use file_server.Client.Local.{LocalDisk}
use file_server.Console.{
  Console, read_line, say, Ui, when_logged_in, do_register, do_login, do_upload, do_download,
  do_list_files, do_delete_file,
}
use file_server.Console.Resume.{do_resume_upload}

module _ (lib : JsonLib) {S : Type 0} (send : Sender lib S) (disk : LocalDisk)
    (items : lib.Json → List lib.Json) (rounds : ℕ) where
  unfoldable pub say_bye : Ui lib send disk Bool
  say_bye c = (some false, c)

  unfoldable pub no_choice : Ui lib send disk Bool
  no_choice c = (some true, say (utf8 "无效选择\n") c)

  -- The branches of `Run`; the answer is `running_`.
  unfoldable pub choose : Bytes → Ui lib send disk Bool
  unfolding say_bye no_choice
  choose choice =
      if same_text choice (utf8 "1")
      then do_register lib send disk
      else if same_text choice (utf8 "2")
      then do_login lib send disk
      else if same_text choice (utf8 "3")
      then do_upload lib send disk
      else if same_text choice (utf8 "4")
      then do_download lib send disk rounds
      else if same_text choice (utf8 "5")
      then do_list_files lib send disk items
      else if same_text choice (utf8 "6")
      then do_delete_file lib send disk
      else if same_text choice (utf8 "7")
      then do_resume_upload lib send disk
      else if same_text choice (utf8 "0")
      then say_bye
      else no_choice

  unfoldable pub menu_round : Ui lib send disk Bool
  unfolding read_line choose
  menu_round = do choice ← call read_line; choose choice

  unfoldable pub carry_on :
      (Console S → Option Bool × Console S) → Option Bool → Ui lib send disk Bool
  carry_on rest none c = (none, c)
  carry_on rest (some true) c = rest c
  carry_on rest (some false) c = (some false, c)

  -- The loop of `Run`, on a number of choices: it answers true where it is still running.
  unfoldable pub menu_loop : ℕ → Ui lib send disk Bool
  unfolding menu_round carry_on
  menu_loop zero c = (some true, c)
  menu_loop (suc choices) c = let (r, c') = menu_round c in carry_on (menu_loop choices) r c'

  -- `Run`
  unfoldable pub run : Network S → Bytes → ℤ → ℕ → Ui lib send disk Bool
  unfolding menu_loop
  run net host port choices c =
      let (up, s') = connect net host port c.world in
      if up
      then menu_loop choices (record c { world = s' })
      else (some false, say (utf8 "连接失败!\n") (record c { world = s' }))

  -- What a branch without a login leaves.
  abbrev Untouched : Option Bool × Console S → Console S → Type 0
  Untouched r c = (r.1.world ≡ c.world) × (r.1.token ≡ c.token) × (r.1.input ≡ c.input)

  guarded :
      (u rest : Ui lib send disk Bool) (c : Console S)
      → u ≡ when_logged_in lib send disk rest
      → is_empty c.token ≡ true
      → Untouched (u c) c
  unfolding when_logged_in
  guarded u rest c e out =
      subst (λ (v : Ui lib send disk Bool). Untouched (v c) c) (sym e) (rw out (refl, refl, refl))

  either :
      (b : Bool) (u v : Ui lib send disk Bool) (c : Console S)
      → Untouched (u c) c
      → Untouched (v c) c
      → Untouched ((if b then u else v) c) c
  either true u v c left right = left
  either false u v c left right = right

  -- Without a token, every choice but the registration and the login sends no request, changes nothing
  -- that the client talks to, and reads no further line.
  pub choose_logged_out :
      (choice : Bytes) (c : Console S)
      → is_empty c.token ≡ true
      → same_text choice (utf8 "1") ≡ false
      → same_text choice (utf8 "2") ≡ false
      → let c' = (choose choice c).1 in
        (c'.world ≡ c.world) × (c'.token ≡ c.token) × (c'.input ≡ c.input)
  unfolding choose do_upload do_download do_list_files do_delete_file do_resume_upload say_bye
      no_choice
  choose_logged_out choice c out no_1 no_2 =
      subst (λ (u : Ui lib send disk Bool). Untouched (u c) c) (sym (if-false _ no_1))
        (subst (λ (u : Ui lib send disk Bool). Untouched (u c) c) (sym (if-false _ no_2))
          (either (same_text choice (utf8 "3")) _ _ c
            (guarded (do_upload lib send disk) _ c refl out)
            (either (same_text choice (utf8 "4")) _ _ c
              (guarded (do_download lib send disk rounds) _ c refl out)
              (either (same_text choice (utf8 "5")) _ _ c
                (guarded (do_list_files lib send disk items) _ c refl out)
                (either (same_text choice (utf8 "6")) _ _ c
                  (guarded (do_delete_file lib send disk) _ c refl out)
                  (either (same_text choice (utf8 "7")) _ _ c
                    (guarded (do_resume_upload lib send disk) _ c refl out)
                    (either (same_text choice (utf8 "0")) say_bye no_choice c (refl, refl, refl)
                      (refl, refl, refl))))))))

  -- At the end of the input the menu never ends: after any number of choices it is still running, with
  -- no request sent.
  pub menu_loop-end_of_input :
      (choices : ℕ) (world : S) (token shown : Bytes)
      → let c : Console S = record { world = world; token = token; input = []; shown = shown } in
        ((menu_loop choices c).0 ≡ some true) × ((menu_loop choices c).1.world ≡ world)
  unfolding menu_loop menu_round read_line choose no_choice carry_on same_text utf8
  menu_loop-end_of_input zero world token shown = (refl, refl)
  menu_loop-end_of_input (suc choices) world token shown =
      menu_loop-end_of_input choices world token (shown ++ utf8 "无效选择\n")
