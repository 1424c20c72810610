-- ===== src/Tests/Reports.antt =====
-- The report of a request.
use mod_gate.Form.Report.Sending.{FileSystem, FileLaws, Fine, send_file, send_file_lem}
use mod_gate.FileInfo.{stat}
use mod_gate.Base.{
  ℕ, ◌+◌, ◌-◌, ◌≢◌, refl, equal, arith, if◌then◌else◌, ◌≡◌, [], ◌∷◌, ◌++◌, none, some, Bytes, codes,
  pos, negsuc,
}
use mod_gate.Decimal.{i32_text}
use mod_gate.Form.Report.Lines.{repr_lem}
use mod_gate.Form.Report.{Described, repr, pairs, pair_lines, table_line, if_any}

-- A request for a page, with a header and two elements of the environment.
abbrev described : Described
described = record {
  hostname = some (codes "example.org");
  document_root = some (codes "/var/www");
  the_request = some (codes "GET / HTTP/1.1");
  request_method = some (codes "GET");
  status = pos 200;
  uri = some (codes "/");
  args = none;
  filename = some (codes "/var/www/index.html");
  path_info = some [];
  bytes_sent = pos 0;
  content_type = none;
  remote_host = none;
  remote_ip = some (codes "10.0.0.7");
  protocol = some (codes "HTTP/1.1");
  proto_num = pos 1001;
  status_line = none;
  method_number = pos 0;
  handler = none;
  user = none;
  local_host = none;
  local_ip = some (codes "10.0.0.1");
  assbackwards = pos 0;
  proxyreq = pos 0;
  header_only = pos 0;
  allowed = negsuc 0;
  headers_in = (codes "Host", codes "example.org") ∷ [];
  subprocess_env = (codes "HOME", codes "/") ∷ (codes "PATH", codes "/bin") ∷ [];
  params = none;
  notes = (codes "gate", codes "ip") ∷ [];
  headers_out = [];
  err_headers_out = [];
}

abbrev fields_text : Bytes
fields_text =
    codes "Request:\n\n"
    ++ (codes "    Hostname                : example.org\n"
        ++ (codes "    Document Root           : /var/www\n"
            ++ (codes "    Request                 : GET / HTTP/1.1\n"
                ++ (codes "    Method                  : GET\n"
                    ++ (codes "    Status                  : 200\n"
                        ++ (codes "    URI                     : /\n"
                            ++ (codes "    Args                    : (null)\n"
                                ++ (codes "    Filename                : /var/www/index.html\n"
                                    ++ (codes "    Path                    : \n"
                                        ++ (codes "    Bytes Sent              : 0\n"
                                            ++ (codes "    Content Type            : (null)\n"
                                                ++ (codes "    Remote Host             : (null)\n"
                                                    ++ (codes
                                                          "    Remote IP               : 10.0.0.7\n"
                                                        ++ (codes
                                                            "    Protocol                : HTTP/1.1\n"
                                                            ++ (codes
                                                            "    Proto Number            : 1001\n"
                                                            ++ (codes
                                                            "    Status Line             : (null)\n"
                                                            ++ (codes
                                                            "    Method Number           : 0\n"
                                                            ++ (codes
                                                            "    Handler                 : (null)\n"
                                                            ++ (codes
                                                            "    User                    : (null)\n"
                                                            ++ (codes
                                                            "    Local Host              : (null)\n"
                                                            ++ (codes
                                                            "    Local IP                : 10.0.0.1\n"
                                                            ++ (codes
                                                            "    Assbackwards            : 0\n"
                                                            ++ (codes
                                                            "    Proxy Req               : 0\n"
                                                            ++ (codes
                                                            "    Header Only             : 0\n"
                                                            ++ codes
                                                            "    Allowed                 : -1\n\n"))))))))))))))))))))))))

abbrev report_text : Bytes
report_text =
    fields_text
    ++ (codes "Headers in:\n\n"
        ++ (codes "    0 Host                  : example.org\n\n"
            ++ (codes "Environment Variables:\n\n"
                ++ (codes "    0 HOME                  : /\n"
                    ++ (codes "    1 PATH                  : /bin\n\n"
                        ++ (codes "Notes:\n\n" ++ codes "    0 gate                  : ip\n"))))))

repr_of_page : repr described ≡ some report_text
unfolding pair_lines pairs i32_text table_line if_any
repr_of_page = repr_lem described

-- A file system with the file `/a` of three bytes; the world is the number of open files.
abbrev three_bytes : FileSystem
three_bytes = record {
  calls = record {
    World = ℕ;
    apr_stat = λ before path flags w.
        if equal path (codes "/a")
        then (0, record before { mask = flags; filetype = 1; file_size = 3 })
        else (2, before);
    apr_incomplete = 70008;
    finfo_min = 0x8170;
    finfo_link = 1;
    finfo_ident = 0x3000;
    finfo_name = 0x2000000;
    apr_reg = 1;
  };
  File = Unit {0};
  file_open = λ path w. if equal path (codes "/a") then (0, tt, w + 1) else (2, tt, w);
  send_fd = λ f n w. (0, n, w);
  file_close = λ f w. w - 1;
}

opens_one :
    (path : Bytes) (w : ℕ)
    → (three_bytes.file_open path w).0 ≡ 0
    → (three_bytes.file_open path w).2 ≡ w + 1
opens_one path w e = ground arith

opens_none :
    (path : Bytes) (w : ℕ)
    → (three_bytes.file_open path w).0 ≢ 0
    → (three_bytes.file_open path w).2 ≡ w
opens_none path w n = ground arith

three_bytes_laws : FileLaws three_bytes
three_bytes_laws = record {
  opens = λ w. w;
  open_ok = opens_one;
  open_failed = opens_none;
  sent_open = λ f n w. refl;
  closed = λ f w. refl;
}

send_file_lem_example :
    Fine three_bytes three_bytes_laws
      (codes "/a")
      (stat three_bytes.calls (codes "/a") 0x8170 0)
      0
      (send_file three_bytes (codes "/a") 0)
send_file_lem_example = send_file_lem three_bytes three_bytes_laws (codes "/a") 0

sends_three : send_file three_bytes (codes "/a") 0 ≡ (pos 3, 0)
unfolding send_file equal
sends_three = refl
