-- ===== src/Web/Pages.antt =====
-- webserver/sdswebuiserver.cpp: the texts that the handlers write, as bytes.
use sniffdogsniff.Shared.{ℕ, List, [], ◌∷◌, ◌++◌}
use sniffdogsniff.Shared.Codes.{codes, page}

-- The start of a page, the end of its head, and its end.
unfoldable pub page_start : List ℕ
page_start = page (
    "<!DOCTYPE html>"
    ∷ "<html lang=\"en\" xmlns=\"http://www.w3.org/1999/html\" xmlns=\"http://www.w3.org/1999/html\" xmlns=\"http://www.w3.org/1999/html\">"
    ∷ "<head>" ∷ [])

unfoldable pub head_end : List ℕ
head_end = page ("</head>" ∷ "<body class=\"\">" ∷ [])

unfoldable pub page_end : List ℕ
page_end = page ("</body></html>" ∷ [])

-- `populateHead`.
unfoldable pub populate_head : List ℕ
populate_head = page (
    "<meta charset=\"UTF-8\"><title>SniffDigSniff - Search</title><style>"
    ∷ ".text-center{text-align:center}"
    ∷ ".container{width:100%;padding-right:15px;padding-left:15px;margin-right:auto;margin-left:auto}"
    ∷ ".btn-gradient {background: linear-gradient(45deg, #979797, #858585 70%);color: #fff;padding: 6px 7px;border: none;border-radius: 2px;cursor: pointer;}"
    ∷ ".sds-input {padding: 5px 7px;border: none;border-radius: 2px;border-style: solid;border-width: 0.5px;border-color: #858585;cursor: pointer;}"
    ∷ ".sds-input-sub {width: 80%;padding: 5px 7px;border: none;border-radius: 2px;border-style: solid;border-width: 0.5px;border-color: #858585;cursor: pointer;}"
    ∷ ".input-group{width:100%;height: 20px;display: inline-block;}"
    ∷ ".input-group-append{display: inline-block;}"
    ∷ ".sds-groupbox-first{margin-top: 15px;margin-bottom: 5px;padding-right:15px;padding-left:15px;}"
    ∷ ".sds-groupbox-spacer{margin-left: 15px;margin-right: 15px;padding: auto;display: inline-block;}"
    ∷ ".sds-groupbox-item{display: inline-block;}" ∷ ".thing-align-right{float: right;}"
    ∷ ".error-box{width: 100%; border-style: solid; border-width: 1px; border-color: red; color: red;}"
    ∷ ".success-box{width: 100%; border-style: solid; border-width: 1px; border-color: green; color: green;}"
    ∷ "</style>" ∷ [])

-- `populateBody` of the class IndexHandler.
unfoldable pub index_page : List ℕ
index_page = page (
    "<nav class=\"navbar navbar-light bg-light\">"
    ∷ "<a class=\"navbar-brand\" href=\"/insert_link\">Insert link</a>" ∷ "</nav>"
    ∷ "<div class=\"container text-center\">" ∷ "<div class=\"text-center\">"
    ∷ "<img class=\"d-block mx-auto mb-4\" src=\"sds_header.png\" alt=\"\">" ∷ "</div>"
    ∷ "<form action=\"/search\" method=\"get\">" ∷ "<div class=\"input-group\">"
    ∷ "<input type=\"search\" class=\"sds-input\" placeholder=\"Search\" aria-label=\"Search\" aria-describedby=\"search-addon\" name=\"q\" value=\"Search something...\" style=\"width:50%\"/>"
    ∷ "<div class=\"input-group-append\">"
    ∷ "<button class=\"btn-gradient\" type=\"submit\">Search</button>" ∷ "</div>" ∷ "</div>"
    ∷ "<div class=\"sds-groupbox-first\">" ∷ "<div class=\"sds-groupbox-item\">"
    ∷ "<label>Search on:</label>" ∷ "</div>" ∷ "<div class=\"sds-groupbox-item\">"
    ∷ "<input class=\"form-check-input\" type=\"radio\" name=\"link_filter\" id=\"inlineRadio1\" value=\"all\" checked>"
    ∷ "<label class=\"form-check-label\" for=\"inlineRadio1\">All links</label>" ∷ "</div>"
    ∷ "<div class=\"sds-groupbox-item\">"
    ∷ "<input class=\"form-check-input\" type=\"radio\" name=\"link_filter\" id=\"inlineRadio2\" value=\"clearnet\">"
    ∷ "<label class=\"form-check-label\" for=\"inlineRadio2\">Clear web links</label>" ∷ "</div>"
    ∷ "<div class=\"sds-groupbox-item\">"
    ∷ "<input class=\"form-check-input\" type=\"radio\" name=\"link_filter\" id=\"inlineRadio3\" value=\"onion\">"
    ∷ "<label class=\"form-check-label\" for=\"inlineRadio3\">Onion links</label>" ∷ "</div>"
    ∷ "<div class=\"sds-groupbox-item\">"
    ∷ "<input class=\"form-check-input\" type=\"radio\" name=\"link_filter\" id=\"inlineRadio4\" value=\"i2p\">"
    ∷ "<label class=\"form-check-label\" for=\"inlineRadio4\">I2P links</label>" ∷ "</div>"
    ∷ "<div  class=\"sds-groupbox-spacer\">" ∷ "<label>|</label>" ∷ "</div>"
    ∷ "<div class=\"sds-groupbox-item\">" ∷ "<label>Category:</label>" ∷ "</div>"
    ∷ "<div class=\"sds-groupbox-item\">"
    ∷ "<input class=\"form-check-input\" type=\"radio\" name=\"category\" id=\"inlineRadio1\" value=\"all\" checked>"
    ∷ "<label class=\"form-check-label\" for=\"inlineRadio1\">All</label>" ∷ "</div>"
    ∷ "<div class=\"sds-groupbox-item\">"
    ∷ "<input class=\"form-check-input\" type=\"radio\" name=\"category\" id=\"inlineRadio2\" value=\"links\">"
    ∷ "<label class=\"form-check-label\" for=\"inlineRadio2\">Links</label>" ∷ "</div>"
    ∷ "<div class=\"sds-groupbox-item\">"
    ∷ "<input class=\"form-check-input\" type=\"radio\" name=\"category\" id=\"inlineRadio3\" value=\"images\">"
    ∷ "<label class=\"form-check-label\" for=\"inlineRadio3\">Images</label>" ∷ "</div>"
    ∷ "<div class=\"sds-groupbox-item\">"
    ∷ "<input class=\"form-check-input\" type=\"radio\" name=\"category\" id=\"inlineRadio4\" value=\"videos\">"
    ∷ "<label class=\"form-check-label\" for=\"inlineRadio4\">Videos</label>" ∷ "</div>" ∷ "</div>"
    ∷ "<input type=\"hidden\" name=\"data_type\" value=\"links\"/>" ∷ "</form>" ∷ [])

-- `populateBody` of the class ResultsViewHandler: before the entries, an entry with its url, title and
-- description, and behind the entries.
unfoldable pub results_start : List ℕ
results_start = page (
    "<div class=\"fixed-top \">" ∷ "<nav class=\"navbar navbar-light bg-light\">"
    ∷ "<form action=\"/search\" method=\"get\">" ∷ "<a class=\"navbar-brand\" href=\"/\">"
    ∷ "<img src=\"sds_logo.png\" width=\"40\" height=\"40\"> SniffDogSniff </a>"
    ∷ "<div class=\"input-group\">"
    ∷ "<input type=\"search\" class=\"sds-input\" placeholder=\"Search\" aria-label=\"Search\" aria-describedby=\"search-addon\" name=\"q\" value=\"Search something...\" style=\"width:50%\"/>"
    ∷ "<div class=\"input-group-append\">"
    ∷ "<button class=\"btn-gradient\" type=\"submit\">Search</button>" ∷ "</div></div>"
    ∷ "<div class=\"sds-groupbox-first\">" ∷ "<div class=\"sds-groupbox-item\">"
    ∷ "<label>Search on:</label>" ∷ "</div>" ∷ "<div class=\"sds-groupbox-item\">"
    ∷ "<input class=\"form-check-input\" type=\"radio\" name=\"link_filter\" id=\"inlineRadio1\" value=\"all\" checked>"
    ∷ "<label class=\"form-check-label\" for=\"inlineRadio1\">All links</label>" ∷ "</div>"
    ∷ "<div class=\"sds-groupbox-item\">"
    ∷ "<input class=\"form-check-input\" type=\"radio\" name=\"link_filter\" id=\"inlineRadio2\" value=\"clearnet\">"
    ∷ "<label class=\"form-check-label\" for=\"inlineRadio2\">Clear web links</label>" ∷ "</div>"
    ∷ "<div class=\"sds-groupbox-item\">"
    ∷ "<input class=\"form-check-input\" type=\"radio\" name=\"link_filter\" id=\"inlineRadio3\" value=\"onion\">"
    ∷ "<label class=\"form-check-label\" for=\"inlineRadio3\">Onion links</label>" ∷ "</div>"
    ∷ "<div class=\"sds-groupbox-item\">"
    ∷ "<input class=\"form-check-input\" type=\"radio\" name=\"link_filter\" id=\"inlineRadio4\" value=\"i2p\">"
    ∷ "<label class=\"form-check-label\" for=\"inlineRadio4\">I2P links</label>" ∷ "</div>"
    ∷ "<div  class=\"sds-groupbox-spacer\">" ∷ "<label>|</label>" ∷ "</div>"
    ∷ "<div class=\"sds-groupbox-item\">" ∷ "<label>Category:</label>" ∷ "</div>"
    ∷ "<div class=\"sds-groupbox-item\">"
    ∷ "<input class=\"form-check-input\" type=\"radio\" name=\"category\" id=\"inlineRadio1\" value=\"all\" checked>"
    ∷ "<label class=\"form-check-label\" for=\"inlineRadio1\">All</label>" ∷ "</div>"
    ∷ "<div class=\"sds-groupbox-item\">"
    ∷ "<input class=\"form-check-input\" type=\"radio\" name=\"category\" id=\"inlineRadio2\" value=\"links\">"
    ∷ "<label class=\"form-check-label\" for=\"inlineRadio2\">Links</label>" ∷ "</div>"
    ∷ "<div class=\"sds-groupbox-item\">"
    ∷ "<input class=\"form-check-input\" type=\"radio\" name=\"category\" id=\"inlineRadio3\" value=\"images\">"
    ∷ "<label class=\"form-check-label\" for=\"inlineRadio3\">Images</label>" ∷ "</div>"
    ∷ "<div class=\"sds-groupbox-item\">"
    ∷ "<input class=\"form-check-input\" type=\"radio\" name=\"category\" id=\"inlineRadio4\" value=\"videos\">"
    ∷ "<label class=\"form-check-label\" for=\"inlineRadio4\">Videos</label>" ∷ "</div>" ∷ "</div>"
    ∷ "<input type=\"hidden\" name=\"data_type\" value=\"links\"/>" ∷ "</form>" ∷ "</nav>"
    ∷ "</div>" ∷ "<hr/>" ∷ "<main class=\"container\">" ∷ "<div class=\"col-14 mx-auto\">"
    ∷ "<ul class=\"list-group list-group-flush\">" ∷ [])

unfoldable pub result_item : List ℕ → List ℕ → List ℕ → List ℕ
result_item url title description =
    page ("<li class=\"list-group-item\">" ∷ "<div>" ∷ "<small class=\"disabled\">" ∷ [])
    ++ (url
        ++ (page (
              "</small>" ∷ "<small class=\"float-right\">" ∷ "Mark for removal" ∷ "</a>"
              ∷ "</small>" ∷ "<br/>" ∷ "<img src=\"\" width=\"16\" height=\"16\">" ∷ "<a href=\""
              ∷ [])
            ++ (url
                ++ (codes "\">"
                    ++ (title
                        ++ (page ("</a>" ∷ "<p class=\"mb-1\">" ∷ [])
                            ++ (description ++ page ("</p>" ∷ "</div>" ∷ "</li>" ∷ []))))))))

unfoldable pub results_end : List ℕ
results_end = page ("</ul>" ∷ "</div>" ∷ "</main>" ∷ [])

-- `populateBody` of the class InsertEntryHandler: before and behind what an insertion writes.
unfoldable pub insert_start : List ℕ
insert_start = page ("<main><h2>Insert Link</h2></div>" ∷ [])

unfoldable pub insert_form : List ℕ
insert_form = page (
    "<form class=\"container\" action=\"/insert_link\" method=\"post\">" ∷ "<p>Link title:</p>"
    ∷ "<input type=\"text\" class=\"sds-input-sub\" id=\"text_input_title\" placeholder=\"Title\" aria-label=\"Search\" name=\"link_title\"/>"
    ∷ "<p>Link url</p>"
    ∷ "<input type=\"text\" class=\"sds-input-sub\" id=\"text_input_url\" placeholder=\"http://example.com\"name=\"link_url\"/>"
    ∷ "<p>Link description</p>"
    ∷ "<textarea rows=\"4\" class=\"sds-input-sub\" id=\"text_area_description\" placeholder=\"Something...\" name=\"property_description\"></textarea>"
    ∷ "<p>Tags</p>"
    ∷ "<input type=\"text\" class=\"sds-input-sub\" id=\"text_input_tags\" placeholder=\"Tag1,Tag2,Tag3...\" name=\"property_tags\"/>"
    ∷ "<p>Link Cathegory </p>"
    ∷ "<select class=\"sds-input-sub\" id=\"data_type_combo\" name=\"data_type\">"
    ∷ "<option value=\"link\">Link</option>" ∷ "<option value=\"image\">Image</option>"
    ∷ "<option value=\"video\">Video</option>" ∷ "</select>" ∷ "<div id=\"property_origin_div\">"
    ∷ "<p>Origin</p>"
    ∷ "<input type=\"text\" class=\"sds-input-sub\" id=\"text_input_tags\" placeholder=\"http://example.com/img.png\" name=\"property_origin\"/>"
    ∷ "</div>"
    ∷ "<input type=\"submit\" class=\"btn-gradient thing-align-right\" value=\" Insert \"/>"
    ∷ "</form></main>" ∷ [])
