-- ===== src/Tests/Chats.antt =====
-- The theorems on the chat manager at two sessions.
use cpp_mmo.Base.{true, ℕ, ◌≡◌, refl, [], ◌∷◌}
use cpp_mmo.Network.Session.{Session}
use cpp_mmo.ChatManager.{Sessions, on_session_connected}

abbrev numbered : ℕ → ℕ → Session
numbered id player = record {
  session_id = id;
  player_id = player;
  is_open = true;
  read_header = [];
  read_body = [];
  write_queue = [];
  has_callback = true;
}

-- Sessions 2 and 10 connect, and 10 stands before 2.
abbrev two : Sessions
two = on_session_connected (on_session_connected [] (numbered 2 7)) (numbered 10 8)

two-ordered : two ≡ (b'1' ∷ b'0' ∷ [], numbered 10 8) ∷ (b'2' ∷ [], numbered 2 7) ∷ []
unfolding on_session_connected
two-ordered = refl
