-- ===== src/Assistant.antt =====
-- signal-gateway-assistant/src: chat messages and responses, and, from signal-gateway/src, the
-- responses to an admin (message_handler.rs) and the agent before the assistant (assistant/).
pub mod Worker
use signal_gateway.Common.{Option, none, some, List, [], ◌∷◌, ◌++◌}
use signal_gateway.Common.Text.{Text, codes}

pub data SentBy : Type 0 where
  user_to_system user_to_assistant assistant system alert_manager : SentBy

unfoldable pub api_role : SentBy → Text
api_role assistant = codes "assistant"
api_role _ = codes "user"

unfoldable pub prefix : SentBy → Option Text
prefix user_to_system = some (codes "[user to system]")
prefix user_to_assistant = none
prefix assistant = none
prefix system = some (codes "[system]")
prefix alert_manager = some (codes "[alertmanager]")

-- The time of a message is of any type.
pub record ChatMessage (T : Type 0) : Type 0 where
  pub sent_by : SentBy
  pub timestamp : T
  pub text : Text

pub record AssistantResponse : Type 0 where
  pub text : Text
  pub attachments : List Text

unfoldable pub add_attachments : AssistantResponse → List Text → AssistantResponse
add_attachments self attachments = record self { attachments = self.attachments ++ attachments }

pub record AdminMessageResponse : Type 0 where
  pub text : Text
  pub attachments : List Text

unfoldable pub new_response : Text → AdminMessageResponse
new_response text = record { text = text; attachments = [] }

unfoldable pub with_attachment : AdminMessageResponse → Text → AdminMessageResponse
with_attachment self path = record self { attachments = self.attachments ++ path ∷ [] }

unfoldable pub with_attachments : AdminMessageResponse → List Text → AdminMessageResponse
with_attachments self paths = record self { attachments = self.attachments ++ paths }

unfoldable pub assistant_response_to_admin : AssistantResponse → AdminMessageResponse
unfolding new_response with_attachments
assistant_response_to_admin resp = with_attachments (new_response resp.text) resp.attachments
