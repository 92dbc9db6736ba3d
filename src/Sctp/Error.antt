-- ===== src/Sctp/Error.antt =====
-- client/src/webrtc/crates/sctp/error.rs: the errors that the modelled code returns.
pub data Error : Type 0 where
  chunk_header_too_small chunk_header_invalid_length chunk_header_not_enough_space : Error
  chunk_header_padding_non_zero chunk_type_not_payload_data chunk_payload_small : Error
  chunk_type_not_sack sack_size_not_large_enough_info : Error
  chunk_type_not_forward_tsn chunk_too_short : Error
  chunk_type_not_cookie_echo chunk_type_not_cookie_ack chunk_type_not_shutdown : Error
  chunk_type_not_shutdown_ack chunk_type_not_shutdown_complete invalid_chunk_size : Error
  outbound_packet_too_large stream_closed payload_data_state_not_exist : Error
  reset_packet_in_state_not_exist init_not_stored_to_send cookie_echo_not_stored_to_send : Error
  handle_init_state init_ack_no_cookie stream_already_exist stream_create_failed : Error
  inflight_queue_tsn_pop tsn_request_not_exist invalid_system_time paramter_type : Error
  handshake_init_ack handshake_cookie_echo err_chunk chunk_type_unhandled : Error
  init_inbound_stream_request_zero init_outbound_stream_request_zero : Error
  init_advertised_receiver_1500 : Error
  chunk_type_init_initate_tag_zero sctp_packet_source_port_zero : Error
  sctp_packet_destination_port_zero init_chunk_bundled init_chunk_verify_tag_not_zero : Error
